-- ===== src/Operator/RedundancySet/Reconcile/Kept.antt =====
-- The nodes and members that `Reconcile` reads, and when it looks again.
use mathlib.Core.Path.{subst}
use mxl_k8s.Base.{
  ◌*◌, ◌≡◌, refl, sym, ap, ◌∙◌, ◌⊎◌, inl, inr, Bool, true, false, none, some, List, [], ◌∷◌, arith,
  All, All-map, Option-cases,
}
use mxl_k8s.Base.Int.{ℤ, pos, ◌≤ℤ◌, ◌<ℤ◌}
use mxl_k8s.Base.Words.{second}
use mxl_k8s.Api.Names.{Bytes, FlowRef, is_flow_id}
use mxl_k8s.Operator.RedundancySet.{Fetched, fetched, missing, failed, SetMember}
use mxl_k8s.Operator.RedundancySet.Mirrors.Wanted.{IsMember}
use mxl_k8s.Operator.RedundancySet.Reconcile.{
  FlowRead, existing_nodes, read_member, read_members, requeue_after,
}

abbrev pub IsIn : Bytes → List Bytes → Type 0
IsIn n [] = ⊥
IsIn n (m ∷ ms) = (m ≡ n) ⊎ IsIn n ms

-- The nodes of the set that are kept are in the cluster, and the others are gone from it.
abbrev pub AreExisting : (Bytes → Fetched (Unit {0})) → List Bytes → List Bytes → Type 0
AreExisting get nodes out =
    All (λ n. IsIn n nodes × (get n ≡ fetched tt)) out
    × All (λ n. (get n ≡ missing) ⊎ IsIn n out) nodes

Fetched-cases :
    {A : Type 0} (f : Fetched A) → ((a : A) × (f ≡ fetched a)) ⊎ ((f ≡ missing) ⊎ (f ≡ failed))
Fetched-cases (fetched a) = inl (a, refl)
Fetched-cases missing = inr (inl refl)
Fetched-cases failed = inr (inr refl)

pub existing_nodes-AreExisting :
    (get : Bytes → Fetched (Unit {0})) (nodes out : List Bytes)
    → existing_nodes get nodes ≡ some out
    → AreExisting get nodes out
unfolding existing_nodes
existing_nodes-AreExisting get [] out e =
    let same : [] ≡ out = ground (arith, e) in subst (AreExisting get []) same (tt, tt)
existing_nodes-AreExisting get (n ∷ nodes) out e = elim (Fetched-cases (get n)) [
  | inr (inr q) ↦ absurd (ground (arith, e, q))
  | inr (inl q) ↦
      let (f, g) = existing_nodes-AreExisting get nodes out (ground (arith, e, q)) in
      (All-map _ _ (λ m k. (inr k.0, k.1)) out f, (inl q, g))
  | inl (u, q) ↦ elim (Option-cases (existing_nodes get nodes)) [
    | inl r ↦ absurd (ground (arith, e, q, r))
    | inr (rest, r) ↦
        let (f, g) = existing_nodes-AreExisting get nodes rest r in
        let same : n ∷ rest ≡ out = ground (arith, e, q, r) in
        subst (AreExisting get (n ∷ nodes)) same (
          ((inl refl, q), All-map _ _ (λ m k. (inr k.0, k.1)) rest f),
          (inr (inl refl), All-map _ _ (λ m k. later rest m k) nodes g),
        )
  ]
]
  where
    later :
        (rest : List Bytes) (m : Bytes)
        → (get m ≡ missing) ⊎ IsIn m rest
        → (get m ≡ missing) ⊎ IsIn m (n ∷ rest)
    later rest m (inl h) = inl h
    later rest m (inr h) = inr (inr h)

-- The node of a flow's origin.
abbrev pub origin_of : {Value : Type 0} → Fetched (FlowRead Value) → Bytes
origin_of missing = []
origin_of failed = []
origin_of (fetched f) = elim f.origin [ none ↦ [] | some (found, node) ↦ node ]

read_member-origin :
    {Value : Type 0} (ref : FlowRef) (f : Fetched (FlowRead Value)) (m : SetMember Value)
    → read_member ref f ≡ some m
    → (m.ref ≡ ref) × (m.origin_node ≡ origin_of f)
unfolding read_member
read_member-origin ref failed m e = absurd (ground (arith, e))
read_member-origin ref missing m e = (ground (arith, e), ground (arith, e))
read_member-origin ref (fetched f) m e = elim (Option-cases f.origin) [
  | inl q ↦ absurd (ground (arith, e, q))
  | inr ((found, node), q) ↦ (ground (arith, e, q), ground (arith, e, q))
]

pub read_members-IsMember :
    {Value : Type 0} (get : FlowRef → Fetched (FlowRead Value)) (domain : Bytes)
    (refs : List FlowRef) (ms : List (SetMember Value))
    → read_members get refs ≡ some ms
    → All (λ r. r.domain ≡ domain) refs
    → All (λ r. is_flow_id r.id ≡ true) refs
    → All (IsMember domain (λ r. origin_of (get r))) ms
unfolding read_members
read_members-IsMember get domain [] ms e h k =
    let same : [] ≡ ms = ground (arith, e) in
    subst (All (IsMember domain (λ r. origin_of (get r)))) same tt
read_members-IsMember get domain (r ∷ refs) ms e h k = elim (Option-cases (read_member r (get r))) [
  | inl q ↦ absurd (ground (arith, e, q))
  | inr (m, q) ↦ elim (Option-cases (read_members get refs)) [
    | inl q' ↦ absurd (ground (arith, e, q, q'))
    | inr (rest, q') ↦
        let same : m ∷ rest ≡ ms = ground (arith, e, q, q') in
        let (a, b) = read_member-origin r (get r) m q in
        subst (All (IsMember domain (λ r'. origin_of (get r')))) same (
          record {
            home = ap (λ x. x.domain) a ∙ h.0;
            id = ap (λ x. is_flow_id x.id) a ∙ k.0;
            from = b ∙ ap (λ x. origin_of (get x)) (sym a);
          },
          read_members-IsMember get domain refs rest q' h.1 k.1,
        )
  ]
]

-- The next look is soon enough for both reasons.
abbrev pub IsSoon : Bool → ℤ → ℤ → Type 0
IsSoon ready settling after =
    (ready ≡ false → (pos 0 <ℤ after) × (after ≤ℤ pos (10 * second)))
    × (pos 0 <ℤ settling → (pos 0 <ℤ after) × (after ≤ℤ settling))
    × (ready ≡ true → settling ≡ pos 0 → after ≡ pos 0)

pub requeue_after-IsSoon :
    (ready : Bool) (settling : ℤ) → IsSoon ready settling (requeue_after ready settling)
unfolding requeue_after
requeue_after-IsSoon true settling = (ground arith, ground arith, ground arith)
requeue_after-IsSoon false settling = (ground arith, ground arith, ground arith)
