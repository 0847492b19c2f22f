-- ===== src/Operator/RedundancySet/Reconcile/Failed.antt =====
-- Why `Reconcile` ends with an error.
use mxl_k8s.Base.{
  ℕ, ◌≡◌, refl, ◌⊎◌, inl, inr, Bool, false, Option, none, some, List, [], ◌∷◌, arith, Bool-cases,
  Option-cases,
}
use mxl_k8s.Api.Names.{Bytes, FlowRef}
use mxl_k8s.Operator.RedundancySet.{Fetched, fetched, missing, failed, SetMember, Mirrors}
use mxl_k8s.Operator.RedundancySet.Mirrors.{ensure_mirrors}
use mxl_k8s.Operator.RedundancySet.Members.{validate}
use mxl_k8s.Operator.RedundancySet.Gateways.{Pod, output_ready}
use mxl_k8s.Operator.RedundancySet.Reconcile.{
  FlowRead, read_member, RedundancySet, Cluster, existing_nodes, read_members, is_flow,
  write_mirrors, reconcile_set,
}
use mxl_k8s.Operator.RedundancySet.Reconcile.Kept.{AreExisting, existing_nodes-AreExisting}

-- The lookup of one of the nodes fails.
abbrev pub Fails : (Bytes → Fetched (Unit {0})) → List Bytes → Type 0
Fails get [] = ⊥
Fails get (n ∷ nodes) = (get n ≡ failed) ⊎ Fails get nodes

existing_nodes-Fails :
    (get : Bytes → Fetched (Unit {0})) (nodes : List Bytes)
    → existing_nodes get nodes ≡ none
    → Fails get nodes
unfolding existing_nodes
existing_nodes-Fails get [] q = absurd (ground (arith, q))
existing_nodes-Fails get (n ∷ nodes) q = by_node (get n) refl (existing_nodes-Fails get nodes)
  where
    by_node :
        (x : Fetched (Unit {0}))
        → get n ≡ x
        → (existing_nodes get nodes ≡ none → Fails get nodes)
        → (get n ≡ failed) ⊎ Fails get nodes
    by_node failed e ih = inl e
    by_node missing e ih = inr (ih (ground (arith, q, e)))
    by_node (fetched u) e ih = elim (Option-cases (existing_nodes get nodes)) [
      | inl r ↦ inr (ih r)
      | inr (out, r) ↦ absurd (ground (arith, q, e, r))
    ]

module _ {Value : Type 0} where
  -- The lookup of a member's flow fails, or that of its origin.
  abbrev pub Unread : (FlowRef → Fetched (FlowRead Value)) → List FlowRef → Type 0
  Unread get [] = ⊥
  Unread get (r ∷ refs) =
      (get r ≡ failed)
      ⊎ ((f : FlowRead Value) × (get r ≡ fetched f) × (f.origin ≡ none))
      ⊎ Unread get refs

  read_members-Unread :
      (get : FlowRef → Fetched (FlowRead Value)) (refs : List FlowRef)
      → read_members get refs ≡ none
      → Unread get refs
  unfolding read_members read_member
  read_members-Unread get [] q = absurd (ground (arith, q))
  read_members-Unread get (r ∷ refs) q = by_flow (get r) refl (read_members-Unread get refs)
    where
      by_flow :
          (x : Fetched (FlowRead Value))
          → get r ≡ x
          → (read_members get refs ≡ none → Unread get refs)
          → (get r ≡ failed)
            ⊎ ((f : FlowRead Value) × (get r ≡ fetched f) × (f.origin ≡ none))
            ⊎ Unread get refs
      by_flow failed e ih = inl e
      by_flow missing e ih = elim (Option-cases (read_members get refs)) [
        | inl n ↦ inr (inr (ih n))
        | inr (ms, n) ↦ absurd (ground (arith, q, e, n))
      ]
      by_flow (fetched f) e ih = elim (Option-cases f.origin) [
        | inl o ↦ inr (inl (f, e, o))
        | inr (at, o) ↦ elim (Option-cases (read_members get refs)) [
          | inl n ↦ inr (inr (ih n))
          | inr (ms, n) ↦ absurd (ground (arith, q, e, o, n))
        ]
      ]

output_ready-none :
    (now : ℕ) (pods : Option (List Pod)) (nodes : List Bytes)
    → output_ready now pods nodes ≡ none
    → pods ≡ none
unfolding output_ready
output_ready-none now none nodes q = refl
output_ready-none now (some pods) [] q = absurd (ground (arith, q))
output_ready-none now (some pods) (node ∷ nodes) q = absurd (ground (arith, q))

module _ {Value : Type 0} (lower : ℕ → ℕ) (k : Cluster Value) (mirrors : Mirrors) where
  -- A call that the outcome needs has failed: of a node, a member's flow or its origin, the pods of
  -- the gateways, a mirror to write, or the mirrors.
  abbrev pub HasFailed : RedundancySet → Type 0
  HasFailed set =
      Fails k.node set.nodes
      ⊎ Unread k.flow set.members
      ⊎ (k.pods ≡ none)
      ⊎ ((nodes : List Bytes) × (ms : List (SetMember Value)) × AreExisting k.node set.nodes nodes
          × (read_members k.flow set.members ≡ some ms)
          × ((ensure_mirrors lower k.calls ms nodes mirrors).1 ≡ false))
      ⊎ (k.lists_mirrors ≡ false)

-- A call for a set that ends with an error.
pub erred-HasFailed :
    {Value : Type 0} (lower : ℕ → ℕ) (same : Value → Value → Bool) (k : Cluster Value) (now : ℕ)
    (set : RedundancySet) (mirrors out : Mirrors)
    → reconcile_set lower same k now set mirrors ≡ (out, none)
    → HasFailed lower k mirrors set
unfolding reconcile_set write_mirrors
erred-HasFailed lower same k now set mirrors out e =
    elim (Option-cases (existing_nodes k.node set.nodes)) [
      | inl q ↦ inl (existing_nodes-Fails k.node set.nodes q)
      | inr (nodes, q) ↦ elim (Option-cases (read_members k.flow set.members)) [
        | inl q' ↦ inr (inl (read_members-Unread k.flow set.members q'))
        | inr (ms, q') ↦ elim (Option-cases (output_ready now k.pods nodes)) [
          | inl q'' ↦ inr (inr (inl (output_ready-none now k.pods nodes q'')))
          | inr (served, q'') ↦ elim (Bool-cases k.lists_mirrors) [
            | inr l ↦ inr (inr (inr (inr l)))
            | inl l ↦
                let valid =
                  validate same (is_flow (k.flow set.output)) set.output.domain set.members
                    set.valid_before set.generation ms in
                elim (Bool-cases (ensure_mirrors lower k.calls ms nodes mirrors).1) [
                  | inr w ↦ inr (
                      inr (
                        inr (
                          inl (
                            nodes,
                            ms,
                            existing_nodes-AreExisting k.node set.nodes nodes q,
                            q',
                            w,
                          ))))
                  | inl w ↦ elim (Bool-cases valid.status) [
                    | inl v ↦ absurd (ground (arith, e, q, q', q'', l, w, v))
                    | inr v ↦ absurd (ground (arith, e, q, q', q'', l, w, v))
                  ]
                ]
          ]
        ]
      ]
    ]
