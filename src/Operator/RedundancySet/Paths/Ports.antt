-- ===== src/Operator/RedundancySet/Paths/Ports.antt =====
-- The ports that the mirrors of a set use on each node.
use mathlib.Core.Path.{subst}
use mxl_k8s.Base.{
  ℕ, ◌+◌, ◌≡◌, ◌≢◌, ◌↔◌, refl, ap, inl, inr, Bool, true, Option, none, some, String, List, [], ◌∷◌,
  map, arith, All, same_bytes_iff, Bool-cases,
}
use mxl_k8s.Base.Texts.{same_text_iff}
use mxl_k8s.Api.Names.{Bytes, FlowRef}
use mxl_k8s.Placement.Node.{port}
use mxl_k8s.Placement.Ledger.{Placement}
use mxl_k8s.Operator.RedundancySet.{FlowMirror}
use mxl_k8s.Operator.RedundancySet.Paths.{
  Paths, disjoint, shared_target, shared_source, unplaced, entry, Leaving, same_leaving,
}

-- Each key differs from those before it, and from the ones seen.
abbrev pub Fresh : {K : Type 0} → List K → List K → Type 0
Fresh seen [] = Unit
Fresh seen (k ∷ ks) = All (λ s. s ≢ k) seen × Fresh (k ∷ seen) ks

-- The keys of a map's entries.
abbrev pub keys : {K : Type 0} → List (K × FlowRef) → List K
keys es = map (λ e. e.0) es

module _ {K : Type 0} (same : K → K → Bool) (is : (a b : K) → (same a b ≡ true) ↔ (a ≡ b)) where
  pub entry-none :
      (key : K) (es : List (K × FlowRef)) → entry same key es ≡ none → All (λ k. k ≢ key) (keys es)
  unfolding entry
  entry-none key [] q = tt
  entry-none key ((k, r) ∷ es) q = elim (Bool-cases (same k key)) [
    | inl t ↦ absurd (ground (arith, q, t))
    | inr t ↦
        (λ e. absurd (ground (arith, t, (is k key).1 e)), entry-none key es (ground (arith, q, t)))
  ]

  pub entry-some :
      (P : K × FlowRef → Type 0) (key : K) (es : List (K × FlowRef)) (r : FlowRef)
      → entry same key es ≡ some r
      → All P es
      → P (key, r) × ¬ All (λ k. k ≢ key) (keys es)
  unfolding entry
  entry-some P key [] r q h = absurd (ground (arith, q))
  entry-some P key ((k, s) ∷ es) r q h = elim (Bool-cases (same k key)) [
    | inl t ↦
        let e : k ≡ key = (is k key).0 t in
        let e' : s ≡ r = ground (arith, q, t) in
        (subst (λ x. P (x, r)) e (subst (λ x. P (k, x)) e' h.0), λ k. absurd (k.0 e))
    | inr t ↦ let (p, n) = entry-some P key es r (ground (arith, q, t)) h.1 in (p, λ k. n k.1)
  ]

pub same_leaving_iff : (a b : Leaving) → (same_leaving a b ≡ true) ↔ (a ≡ b)
same_leaving_iff (n, p) (m, q) = (
  λ t.
      pair ((same_bytes_iff n m).0 (ground (arith, t))) ((same_text_iff p q).0 (ground (arith, t))),
  λ e. rw ((same_bytes_iff n m).1 (ap (λ x. x.0) e), (same_text_iff p q).1 (ap (λ x. x.1) e)) refl,
)
  where
    pair : n ≡ m → p ≡ q → ◌≡◌ {A = Leaving} (n, p) (m, q)
    pair e e' = rw (e, e') refl

-- `live` is the mirror of a flow to a node, and `place` where a placed mirror arrives and leaves.
module _ (live : Bytes → FlowRef → Option FlowMirror)
    (place : Bytes → FlowMirror → Placement → String × Leaving) where
  -- The places of the mirrors to a node, in the order of the members.
  abbrev pub places : Bytes → List FlowRef → List (String × Leaving)
  places node [] = []
  places node (ref ∷ refs) =
      let rest = places node refs in
      elim (live node ref) [
        | none ↦ rest
        | some m ↦ elim m.placement [ none ↦ rest | some p ↦ place node m p ∷ rest ]
      ]

  -- How many mirrors to the node are not placed.
  abbrev pub waiting : Bytes → List FlowRef → ℕ
  waiting node [] = 0
  waiting node (ref ∷ refs) =
      let rest = waiting node refs in
      elim (live node ref) [
        | none ↦ rest
        | some m ↦ elim m.placement [ none ↦ rest + 1 | some p ↦ rest ]
      ]

  abbrev pub arrivals : Bytes → List FlowRef → List String
  arrivals node refs = map (λ x. x.0) (places node refs)

  abbrev pub departures : Bytes → List FlowRef → List Leaving
  departures node refs = map (λ x. x.1) (places node refs)

  -- The flow's mirror to the node is placed there.
  abbrev pub IsPlaced : Bytes → FlowRef → (String × Leaving → Type 0) → Type 0
  IsPlaced node ref P =
      (m : FlowMirror) × (p : Placement) × (live node ref ≡ some m)
      × (m.placement ≡ some p)
      × P (place node m p)

  abbrev pub ArrivesAt : Bytes → FlowRef → String → Type 0
  ArrivesAt node ref port = IsPlaced node ref (λ x. x.0 ≡ port)

  abbrev pub LeavesBy : Bytes → FlowRef → Leaving → Type 0
  LeavesBy node ref key = IsPlaced node ref (λ x. x.1 ≡ key)

  -- A shared port that is named is one, of mirrors to one of the nodes.
  abbrev pub IsShared : Paths → Type 0
  IsShared disjoint = ⊥
  IsShared (unplaced n) = ⊥
  IsShared (shared_target a b node port) = ArrivesAt node a port × ArrivesAt node b port
  IsShared (shared_source a b node from port) =
      LeavesBy node a (from, port) × LeavesBy node b (from, port)

  abbrev pub IsTarget : Paths → Type 0
  IsTarget disjoint = ⊥
  IsTarget (unplaced n) = ⊥
  IsTarget (shared_target a b node port) = Unit
  IsTarget (shared_source a b node from port) = ⊥

  abbrev pub IsSource : Paths → Type 0
  IsSource disjoint = ⊥
  IsSource (unplaced n) = ⊥
  IsSource (shared_target a b node port) = ⊥
  IsSource (shared_source a b node from port) = Unit
