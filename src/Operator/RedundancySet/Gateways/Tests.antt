-- ===== src/Operator/RedundancySet/Gateways/Tests.antt =====
-- Two gateway pods: what `outputReady` answers, and its theorems there.
use mxl_k8s.Base.{
  ℕ, ◌+◌, ◌*◌, ◌≤◌, ◌≡◌, ◌↔◌, refl, true, false, some, List, [], ◌∷◌, arith, All, same_bytes,
  Bool-cases, inl, inr,
}
use mxl_k8s.Base.Int.{pos, pos_part}
use mxl_k8s.Base.Words.{second}
use mxl_k8s.Api.Names.{Bytes}
use mxl_k8s.Operator.RedundancySet.Members.{gateway_not_ready}
use mxl_k8s.Operator.RedundancySet.Gateways.{Pod, Served, gateway_ready_since, output_ready}
use mxl_k8s.Operator.RedundancySet.Gateways.Settled.{AreTimes}
use mxl_k8s.Operator.RedundancySet.Gateways.Answer.{
  SettledAt, output_ready-IsServed, output_ready-settles,
}

abbrev pod_on : ℕ → ℕ → Pod
pod_on node since = record {
  node = node ∷ [];
  deleting = false;
  conditions = record { is_ready = true; is_true = true; since = since } ∷ [];
}

-- The gateway on "a" is ready since second 10, the one on "b" since second 18.
abbrev pods : List Pod
pods = pod_on 97 (10 * second) ∷ pod_on 98 (18 * second) ∷ []

abbrev nodes : List Bytes
nodes = (97 ∷ []) ∷ (98 ∷ []) ∷ []

program : Unit {0}
unfolding output_ready gateway_ready_since
program = tt

-- At second 20 the second one has three seconds left.
settling :
    output_ready (20 * second) (some pods) nodes
    ≡ some (record {
      status = false;
      reason = gateway_not_ready;
      down = (98 ∷ []) ∷ [];
      settling = pos (3 * second);
    })
unfolding program
settling = refl

pods-AreTimes : AreTimes pods
unfolding gateway_ready_since
pods-AreTimes node t e = elim (Bool-cases (same_bytes (97 ∷ []) node)) [
  | inl q ↦ elim (Bool-cases (same_bytes (98 ∷ []) node)) [
    | inl q' ↦ ground (arith, e, q, q')
    | inr q' ↦ ground (arith, e, q, q')
  ]
  | inr q ↦ elim (Bool-cases (same_bytes (98 ∷ []) node)) [
    | inl q' ↦ ground (arith, e, q, q')
    | inr q' ↦ ground (arith, e, q, q')
  ]
]

output_ready-IsServed_example :
    (o : Served) × (output_ready (20 * second) (some pods) nodes ≡ some o)
    × ((o.status ≡ true) ↔ All (SettledAt pods (20 * second)) nodes)
    × (o.status ≡ true → o.settling ≡ pos 0)
output_ready-IsServed_example =
    output_ready-IsServed pods (20 * second) nodes (omega arith) pods-AreTimes

output_ready-settles_example :
    (o : Served) × (p : Served) × (output_ready (20 * second) (some pods) nodes ≡ some o)
    × (o.settling ≡ pos (pos_part o.settling))
    × (output_ready (23 * second) (some pods) nodes ≡ some p)
    × (20 * second + pos_part o.settling ≤ 23 * second → p.status ≡ true)
output_ready-settles_example =
    output_ready-settles pods (20 * second) (23 * second) nodes (omega arith) (omega arith)
      pods-AreTimes
      (
        (10 * second, inl (refl, refl, inl (refl, refl, omega arith))),
        ((18 * second, inr (inl (refl, refl, inl (refl, refl, omega arith)))), tt),
      )
