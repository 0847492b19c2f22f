-- ===== src/Gateway/Gate.antt =====
-- `EnumerationGate` of gateway/internal/capabilities/gate.go. The zero time is `none`, times do
-- not go back, and the error of `Check` is `false`.
pub mod Held
mod Tests
use mxl_k8s.Base.{
  ℕ, ◌-◌, Bool, true, false, not, ◌||◌, Option, none, some, List, [], ◌∷◌, ltb, if◌then◌else◌,
}

pub record Gate : Type 0 where
  pub grace : ℕ
  pub since : Option ℕ

-- A comparison: when it was, whether it ran at all, and whether its reason is
-- ReasonHostDevicesUnenumerated.
pub record Comparison : Type 0 where
  pub at : ℕ
  pub applies : Bool
  pub unenumerated : Bool

unfoldable pub observe_gate : Comparison → Gate → Gate
observe_gate c g =
    if not c.applies || not c.unenumerated
    then record g { since = none }
    else elim g.since [ none ↦ record g { since = some c.at } | some _ ↦ g ]

unfoldable pub check_gate : ℕ → Gate → Bool
check_gate now g = elim g.since [ none ↦ true | some since ↦ ltb (now - since) g.grace ]

-- The gate after the comparisons, the last one first.
unfoldable pub gate_after : ℕ → List Comparison → Gate
unfolding observe_gate
gate_after grace [] = record { grace = grace; since = none }
gate_after grace (c ∷ cs) = observe_gate c (gate_after grace cs)
