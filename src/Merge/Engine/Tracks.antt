-- ===== src/Merge/Engine/Tracks.antt =====
-- What a pass leaves of the lists that `Retire` follows the members in, and the indices of its
-- selects.
use mathlib.Core.Path.{subst}
use mxl_k8s.Base.{
  ℕ, zero, suc, ◌+◌, ◌-◌, ◌%◌, ◌≤◌, ◌<◌, ◌≡◌, refl, sym, ap, ◌∙◌, inl, inr, Bool, true, false, ◌&&◌,
  Option, none, some, List, [], ◌∷◌, ◌++◌, arith, All, leb, ltb, length, get_elem?, set, Bool-cases,
  Option-cases, ◌==◌, if◌then◌else◌,
}
use mxl_k8s.Base.Words.{u64, i64, sub_time}
use mxl_k8s.Base.Int.{ℤ, leb_ℤ, ◌-ℤ◌}
use mxl_k8s.Merge.Discrete.{
  Member, DiscretePolicy, Select, Verdict, stop, hold, show, fault, Stepped, decide, choose,
  substitute, give_up, wait_for, primary_skipped, publish, adopt, point, advance, leading,
  start_primary, start_head, step, scan,
}
use mxl_k8s.Merge.Discrete.Retire.{
  move, retire_index, retire_from, successor, oldest, nexts, highest, retire,
}
use mxl_k8s.Merge.Discrete.Retire.Members.{refresh-total}
use mxl_k8s.Merge.Engine.Apply.{IsWithin}
use native.Mathlib.Nat.{mod-lt}

-- The same lists.
abbrev pub Tracks : DiscretePolicy → DiscretePolicy → Type 0
Tracks d e = (e.seen ≡ d.seen) × (e.late ≡ d.late)

abbrev TracksIn : DiscretePolicy → Verdict → Type 0
TracksIn d stop = Unit
TracksIn d fault = Unit
TracksIn d (hold e w) = Tracks d e
TracksIn d (show e p) = Tracks d e

wait_for-Tracks : (d : DiscretePolicy) (index now : ℕ) → Tracks d (wait_for d index now)
unfolding wait_for
wait_for-Tracks d index now = ground arith

skipped-TracksIn :
    (d e : DiscretePolicy) (alt : ℕ) (late : Bool) (w : ℤ) (o : Option Bool)
    → Tracks d e
    → TracksIn d (elim o [
      | none ↦ fault
      | some true ↦ show e alt
      | some false ↦ if late then show (record e { primary = some alt }) alt else hold e w
    ])
skipped-TracksIn d e alt late w none h = tt
skipped-TracksIn d e alt late w (some true) h = h
skipped-TracksIn d e alt true w (some false) h = h
skipped-TracksIn d e alt false w (some false) h = h

substitute-TracksIn :
    (d : DiscretePolicy) (ms : List Member) (index alt now : ℕ)
    → TracksIn d (substitute d ms index alt now)
unfolding substitute
substitute-TracksIn d ms index alt now =
    let e = wait_for d index now in
    skipped-TracksIn d e alt (leb_ℤ e.tolerance (sub_time now e.waiting_since))
      (i64 (e.tolerance -ℤ sub_time now e.waiting_since)) (primary_skipped e ms index)
      (wait_for-Tracks d index now)

give_up-TracksIn : (d : DiscretePolicy) (lead index : ℕ) → TracksIn d (give_up d lead index)
unfolding give_up
give_up-TracksIn d lead index = elim (Bool-cases (ltb lead (u64 (index + d.skew)))) [
  | inl q ↦ rw (give_up, q) tt
  | inr q ↦ rw (give_up, q) (refl, refl)
]

choose-TracksIn :
    (d : DiscretePolicy) (ms : List Member) (lead now index : ℕ) (found : Option ℕ × Option ℕ)
    → TracksIn d (choose d ms lead now index found)
unfolding choose
choose-TracksIn d ms lead now index (some pick, alt) = (refl, refl)
choose-TracksIn d ms lead now index (none, none) = give_up-TracksIn d lead index
choose-TracksIn d ms lead now index (none, some alt) = elim (Bool-cases d.ordered) [
  | inl q ↦ simp q (substitute-TracksIn d ms index alt now)
  | inr q ↦ simp q (refl, refl)
]

publish-Tracks :
    (d e : DiscretePolicy) (pick index : ℕ) (s : List Select)
    → publish d pick index ≡ some (e, s)
    → Tracks d e
unfolding publish adopt point
publish-Tracks d e pick index s q = ground (arith, q)

trans-Tracks : (d e f : DiscretePolicy) → Tracks d e → Tracks e f → Tracks d f
trans-Tracks d e f h k = (k.0 ∙ h.0, k.1 ∙ h.1)

module _ (ms : List Member) (lead now : ℕ) where
  decided :
      (d : DiscretePolicy) (v : Verdict) → decide d ms lead now (d.head + 1) ≡ v → TracksIn d v
  unfolding decide
  decided d v q =
      subst (TracksIn d) q
        (choose-TracksIn d ms lead now (d.head + 1) (scan d (d.head + 1) 0 ms (none, none)))

  advance-Tracks :
      (fuel : ℕ) (d : DiscretePolicy) (s : List Select) (r : Stepped)
      → advance fuel ms lead now d s ≡ some r
      → Tracks d r.state
  unfolding advance
  advance-Tracks zero d s r q = absurd (ground (arith, q))
  advance-Tracks (suc fuel) d s r q = elim (Bool-cases (ltb d.head lead)) [
    | inr b ↦ ground (arith, q, b)
    | inl b ↦ elim (Bool-cases (d.grains == 0)) [
      | inl z ↦ absurd (ground (arith, q, b, z))
      | inr z ↦ by_verdict (decide d ms lead now (d.head + 1)) refl b z (advance-Tracks fuel)
    ]
  ]
    where
      by_verdict :
          (v : Verdict)
          → decide d ms lead now (d.head + 1) ≡ v
          → ltb d.head lead ≡ true
          → (d.grains == 0) ≡ false
          → ((f : DiscretePolicy) (s' : List Select) (r' : Stepped)
              → advance fuel ms lead now f s' ≡ some r'
              → Tracks f r'.state)
          → Tracks d r.state
      by_verdict fault e b z again = absurd (ground (arith, q, b, z, e))
      by_verdict stop e b z again = ground (arith, q, b, z, e)
      by_verdict (hold f w) e b z again =
          let t : Tracks d f = decided d (hold f w) e in ground (arith, q, b, z, e, t.0, t.1)
      by_verdict (show f pick) e b z again =
          let t : Tracks d f = decided d (show f pick) e in
          elim (Option-cases (publish f pick (d.head + 1))) [
            | inl p ↦ absurd (ground (arith, q, b, z, e, p))
            | inr ((g, s'), p) ↦
                trans-Tracks d g r.state
                  (trans-Tracks d f g t (publish-Tracks f g pick (d.head + 1) s' p))
                  (again g (s ++ s') r (ground (arith, q, b, z, e, p)))
          ]

begun-Tracks : (d : DiscretePolicy) (lead : ℕ) → Tracks d (start_head (start_primary d) lead)
unfolding start_head start_primary
begun-Tracks d lead = ground arith

-- `Step` leaves the lists as they are.
pub step-Tracks :
    (d : DiscretePolicy) (ms : List Member) (now : ℕ) (r : Stepped)
    → step d ms now ≡ some r
    → Tracks d r.state
unfolding step
step-Tracks d ms now r q =
    let e = start_head (start_primary d) (leading ms 0) in
    trans-Tracks d e r.state (begun-Tracks d (leading ms 0))
      (advance-Tracks ms (leading ms 0) now (suc (leading ms 0 - e.head)) e [] r q)

-- What a turn or the loop of `Retire` leaves, with selects for slots of the ring.
record IsMoved (grains top : ℕ) (d e : DiscretePolicy) (s : List Select) : Type 0 where
  pub selects : All (IsWithin grains top) s
  pub head : e.head ≡ d.head
  pub same_ring : e.grains ≡ d.grains
  pub tracks : Tracks d e

module _ (ms : List Member) (ns : List ℕ) (grains top : ℕ) (some_grains : 0 < grains) where
  stays :
      (d e : DiscretePolicy) (s : List Select)
      → ◌≡◌ {A = Option (DiscretePolicy × List Select)} (some (d, [])) (some (e, s))
      → IsMoved grains top d e s
  stays d e s q =
      let same : d ≡ e = ground (arith, q) in
      let none_yet : [] ≡ s = ground (arith, q) in
      subst (λ x. IsMoved grains top d x s) same
        (subst (IsMoved grains top d d) none_yet
          (record { selects = tt; head = refl; same_ring = refl; tracks = (refl, refl) }))

  moves :
      (d e : DiscretePolicy) (s : List Select) (to i : ℕ)
      → d.grains ≡ grains
      → i ≤ top
      → ◌≡◌ {A = Option (DiscretePolicy × List Select)}
          (some (move d (i % d.grains) to i))
          (some (e, s))
      → IsMoved grains top d e s
  unfolding move
  moves d e s to i g l q =
      let f : DiscretePolicy = record d { current = set d.current (i % d.grains) to } in
      let same : f ≡ e = ground (arith, q) in
      let one : record { slot = i % d.grains; source = to; index = i } ∷ [] ≡ s =
        ground (arith, q) in
      let low : i % d.grains < grains =
        subst (λ x. i % x < grains) (sym g) (mod-lt i some_grains) in
      subst (λ x. IsMoved grains top d x s) same
        (subst (IsMoved grains top d f) one (record {
          selects = ((low, l), tt);
          head = refl;
          same_ring = refl;
          tracks = (refl, refl);
        }))

  retire_index-IsMoved :
      (d e : DiscretePolicy) (i : ℕ) (s : List Select)
      → retire_index d ms ns i ≡ some (e, s)
      → d.grains ≡ grains
      → i ≤ top
      → IsMoved grains top d e s
  unfolding retire_index
  retire_index-IsMoved d e i s q g l = elim (Option-cases (get_elem? d.current (i % d.grains))) [
    | inl x ↦ absurd (ground (arith, q, x))
    | inr (cur, x) ↦ elim (Bool-cases (cur == d.placeholder)) [
      | inl y ↦ stays d e s (ground (arith, q, x, y))
      | inr y ↦ elim (Option-cases (get_elem? ns cur)) [
        | inl z ↦ absurd (ground (arith, q, x, y, z))
        | inr (n, z) ↦ elim (Bool-cases (ltb n (u64 (i + d.grains)))) [
          | inl t ↦ stays d e s (ground (arith, q, x, y, z, t))
          | inr t ↦ moves d e s (successor d ms ns cur i) i g l (ground (arith, q, x, y, z, t))
        ]
      ]
    ]
  ]

  All-append : (P : Select → Type 0) (ss ts : List Select) → All P ss → All P ts → All P (ss ++ ts)
  All-append P [] ts h k = k
  All-append P (s ∷ ss) ts h k = (h.0, All-append P ss ts h.1 k)

  retire_from-IsMoved :
      (fuel reach i : ℕ) (d e : DiscretePolicy) (s t : List Select)
      → retire_from fuel ms ns reach i d s ≡ some (e, t)
      → d.grains ≡ grains
      → d.head ≤ top
      → All (IsWithin grains top) s
      → IsMoved grains top d e t
  unfolding retire_from
  retire_from-IsMoved zero reach i d e s t q g l h = absurd (ground (arith, q))
  retire_from-IsMoved (suc fuel) reach i d e s t q g l h =
      elim (Bool-cases (leb i d.head && leb (u64 (i + d.grains)) reach)) [
        | inr b ↦
            let same : d ≡ e = ground (arith, q, b) in
            let there : s ≡ t = ground (arith, q, b) in
            subst (λ x. IsMoved grains top d x t) same
              (subst (IsMoved grains top d d) there
                (record { selects = h; head = refl; same_ring = refl; tracks = (refl, refl) }))
        | inl b ↦ elim (Option-cases (retire_index d ms ns i)) [
          | inl x ↦ absurd (ground (arith, q, b, x))
          | inr ((f, s'), x) ↦
              let k = retire_index-IsMoved d f i s' x g (ground (arith, b)) in
              let r =
                retire_from-IsMoved fuel reach (u64 (i + 1)) f e (s ++ s') t
                  (ground (arith, q, b, x)) (k.same_ring ∙ g) (omega (arith, k.head))
                  (All-append (IsWithin grains top) s s' h k.selects) in
              record {
                selects = r.selects;
                head = r.head ∙ k.head;
                same_ring = r.same_ring ∙ k.same_ring;
                tracks = trans-Tracks d f e k.tracks r.tracks;
              }
        ]
      ]

-- `Retire` selects slots of the ring for indices up to the head, and follows each member.
pub retire-IsWithin :
    (d e : DiscretePolicy) (ms : List Member) (due : ℕ) (s : List Select)
    → retire d ms due ≡ some (e, s)
    → length d.late ≡ length d.seen
    → 0 < d.grains
    → All (IsWithin d.grains d.head) s × (length e.late ≡ length e.seen)
unfolding retire
retire-IsWithin d e ms due s q h some_grains =
    let (f, x, k, _) = refresh-total d ms due h in
    let r =
      retire_from-IsMoved ms (nexts due ms f.late) d.grains d.head some_grains
        (suc (suc f.head - oldest f)) (highest (nexts due ms f.late) 0) (oldest f) f e [] s
        (ground (arith, q, x)) k.config.grains (omega (arith, k.head)) tt in
    (r.selects, ap length r.tracks.1 ∙ k.late ∙ sym k.seen ∙ sym (ap length r.tracks.0))
