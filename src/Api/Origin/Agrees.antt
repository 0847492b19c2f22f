-- ===== src/Api/Origin/Agrees.antt =====
-- `ResolveOrigin` against a description of its answer by the locations and the Leases.
use mathlib.Core.Path.{subst}
use mxl_k8s.Base.{
  ℕ, ◌≡◌, refl, sym, ap, ◌∙◌, ◌⊎◌, inl, inr, Bool, true, false, ◌||◌, some, String, List, [], ◌∷◌,
  ◌++◌, All, arith,
}
use mxl_k8s.Api.Origin.{
  Phase, origin, mirroring, ready, stale, other, Location, Flow, Answer, failed, answered, Resolved,
  error, resolved, nowhere, resolve_from, resolve_origin,
}

abbrev is_origin : Phase → Bool
is_origin origin = true
is_origin mirroring = false
is_origin ready = false
is_origin stale = false
is_origin other = false

-- Whether some location is an origin.
abbrev pub any_origin : List Location → Bool
any_origin [] = false
any_origin (l ∷ ls) = is_origin l.phase || any_origin ls

module _ (name : String) (ask : String → String → Answer) where
  -- No origin among them has a fresh Lease, and no Lease failed to be read.
  abbrev pub Lapsed : List Location → Type 0
  Lapsed = All (λ l. l.phase ≡ origin → (d : ℕ) × (ask name l.node_name ≡ answered false d))

  -- The first origin of the list that is not lapsed.
  pub record IsFirst (ls : List Location) (l : Location) : Type 0 where
    pub before : List Location
    pub after : List Location
    pub place : ls ≡ before ++ (l ∷ after)
    pub lapsed : Lapsed before
    pub phase : l.phase ≡ origin

  abbrev pub IsRight : List Location → Bool → Resolved → Type 0
  IsRight ls saw (error e) = (l : Location) × IsFirst ls l × (ask name l.node_name ≡ failed e)
  IsRight ls saw (resolved r) =
      ((l : Location) × (d : ℕ) × IsFirst ls l
        × (ask name l.node_name ≡ answered true d)
        × (r ≡ record { node = l.node_name; found = true; all_stale = false; deadline = d }))
      ⊎ (Lapsed ls × (r ≡ nowhere (saw || any_origin ls)))

  later-IsFirst :
      (x : Location) (ls : List Location) (l : Location)
      → (x.phase ≡ origin → (d : ℕ) × (ask name x.node_name ≡ answered false d))
      → IsFirst ls l
      → IsFirst (x ∷ ls) l
  later-IsFirst x ls l h f = record {
    before = x ∷ f.before;
    after = f.after;
    place = ap (◌∷◌ x) f.place;
    lapsed = (h, f.lapsed);
    phase = f.phase;
  }

  later-IsRight :
      (x : Location) (ls : List Location) (saw saw' : Bool) (r : Resolved)
      → (x.phase ≡ origin → (d : ℕ) × (ask name x.node_name ≡ answered false d))
      → (saw' || any_origin ls) ≡ (saw || (is_origin x.phase || any_origin ls))
      → IsRight ls saw' r
      → IsRight (x ∷ ls) saw r
  later-IsRight x ls saw saw' (error e) h q (l, f, a) = (l, later-IsFirst x ls l h f, a)
  later-IsRight x ls saw saw' (resolved r) h q (inl (l, d, f, a, b)) =
      inl (l, d, later-IsFirst x ls l h f, a, b)
  later-IsRight x ls saw saw' (resolved r) h q (inr (k, b)) = inr ((h, k), b ∙ ap nowhere q)

  or_true : (saw b : Bool) → true ≡ (saw || (true || b))
  or_true true b = refl
  or_true false b = refl

  head-IsFirst : (x : Location) (ls : List Location) → x.phase ≡ origin → IsFirst (x ∷ ls) x
  head-IsFirst x ls p = record { before = []; after = ls; place = refl; lapsed = tt; phase = p }

  resolve_asked :
      (x : Location) (ls : List Location) (saw : Bool) (a : Answer)
      → x.phase ≡ origin
      → ask name x.node_name ≡ a
      → resolve_from name (some ask) (x ∷ ls) saw ≡ elim a [
        | failed e ↦ error e
        | answered true d ↦
            resolved record { node = x.node_name; found = true; all_stale = false; deadline = d }
        | answered false d ↦ resolve_from name (some ask) ls true
      ]
  unfolding resolve_from
  resolve_asked x ls saw a p q = rw (resolve_from, p, q) refl

  resolve_skipped :
      (x : Location) (ls : List Location) (saw : Bool) (t : Phase)
      → x.phase ≡ t
      → is_origin t ≡ false
      → resolve_from name (some ask) (x ∷ ls) saw ≡ resolve_from name (some ask) ls saw
  unfolding resolve_from
  resolve_skipped x ls saw origin p q = absurd (ground arith)
  resolve_skipped x ls saw mirroring p q = rw (resolve_from, p) refl
  resolve_skipped x ls saw ready p q = rw (resolve_from, p) refl
  resolve_skipped x ls saw stale p q = rw (resolve_from, p) refl
  resolve_skipped x ls saw other p q = rw (resolve_from, p) refl

  asked-IsRight :
      (x : Location) (ls : List Location) (saw : Bool) (a : Answer)
      → x.phase ≡ origin
      → ask name x.node_name ≡ a
      → IsRight ls true (resolve_from name (some ask) ls true)
      → IsRight (x ∷ ls) saw (resolve_from name (some ask) (x ∷ ls) saw)
  asked-IsRight x ls saw (failed e) p q h =
      subst (IsRight (x ∷ ls) saw) (sym (resolve_asked x ls saw (failed e) p q))
        (x, head-IsFirst x ls p, q)
  asked-IsRight x ls saw (answered true d) p q h =
      subst (IsRight (x ∷ ls) saw) (sym (resolve_asked x ls saw (answered true d) p q))
        (inl (x, d, head-IsFirst x ls p, q, refl))
  asked-IsRight x ls saw (answered false d) p q h =
      subst (IsRight (x ∷ ls) saw) (sym (resolve_asked x ls saw (answered false d) p q)) (
        later-IsRight x ls saw true (resolve_from name (some ask) ls true) (λ _. (d, q))
          (or_true saw (any_origin ls) ∙ ap (λ t. saw || (is_origin t || any_origin ls)) (sym p)) h)

  skipped-IsRight :
      (x : Location) (ls : List Location) (saw : Bool) (t : Phase)
      → x.phase ≡ t
      → is_origin t ≡ false
      → IsRight ls saw (resolve_from name (some ask) ls saw)
      → IsRight (x ∷ ls) saw (resolve_from name (some ask) (x ∷ ls) saw)
  skipped-IsRight x ls saw t p q h =
      subst (IsRight (x ∷ ls) saw) (sym (resolve_skipped x ls saw t p q)) (
        later-IsRight x ls saw saw (resolve_from name (some ask) ls saw)
          (λ o. absurd (ground (arith, o, p, q)))
          (ap (λ b. saw || (b || any_origin ls)) (sym (ap is_origin p ∙ q))) h)

  or_false : (saw : Bool) → saw ≡ (saw || false)
  or_false true = refl
  or_false false = refl

  phased-IsRight :
      (x : Location) (ls : List Location) (saw : Bool) (t : Phase)
      → x.phase ≡ t
      → ((saw' : Bool) → IsRight ls saw' (resolve_from name (some ask) ls saw'))
      → IsRight (x ∷ ls) saw (resolve_from name (some ask) (x ∷ ls) saw)
  phased-IsRight x ls saw origin p h = asked-IsRight x ls saw (ask name x.node_name) p refl (h true)
  phased-IsRight x ls saw mirroring p h = skipped-IsRight x ls saw mirroring p refl (h saw)
  phased-IsRight x ls saw ready p h = skipped-IsRight x ls saw ready p refl (h saw)
  phased-IsRight x ls saw stale p h = skipped-IsRight x ls saw stale p refl (h saw)
  phased-IsRight x ls saw other p h = skipped-IsRight x ls saw other p refl (h saw)

  loop-IsRight :
      (ls : List Location) (saw : Bool) → IsRight ls saw (resolve_from name (some ask) ls saw)
  unfolding resolve_from
  loop-IsRight [] saw = inr (tt, ap nowhere (or_false saw))
  loop-IsRight (x ∷ ls) saw = phased-IsRight x ls saw x.phase refl (λ b. loop-IsRight ls b)

-- For any locations and any answers of the Lease check, `ResolveOrigin` fails only with the error
-- of the first origin whose Lease is not found lapsed, finds only the node of the first such origin
-- where its Lease is fresh, with the Lease's deadline, and otherwise every origin's Lease has
-- lapsed: then it finds no node, and says that all are stale exactly where there is an origin.
pub resolve_origin-IsRight :
    (flow : Flow) (ask : String → String → Answer)
    → IsRight flow.name ask flow.locations false (resolve_origin (some flow) (some ask))
unfolding resolve_origin
resolve_origin-IsRight flow ask = loop-IsRight flow.name ask flow.locations false
