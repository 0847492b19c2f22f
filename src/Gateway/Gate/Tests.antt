-- ===== src/Gateway/Gate/Tests.antt =====
-- A gate with a grace of 30 that sees two bad comparisons after a good one.
use mxl_k8s.Base.{◌≡◌, refl, true, false, List, [], ◌∷◌}
use mxl_k8s.Gateway.Gate.{Comparison, observe_gate, check_gate, gate_after}
use mxl_k8s.Gateway.Gate.Held.{IsVerdict, check_gate-IsVerdict}

abbrev seen : List Comparison
seen =
    record { at = 40; applies = true; unenumerated = true }
    ∷ record { at = 20; applies = true; unenumerated = true }
    ∷ record { at = 10; applies = true; unenumerated = false }
    ∷ []

fails_at_50 : check_gate 50 (gate_after 30 seen) ≡ false
unfolding check_gate gate_after observe_gate
fails_at_50 = refl

passes_at_49 : check_gate 49 (gate_after 30 seen) ≡ true
unfolding check_gate gate_after observe_gate
passes_at_49 = refl

check_gate-IsVerdict_example : IsVerdict 30 50 seen (check_gate 50 (gate_after 30 seen))
check_gate-IsVerdict_example = check_gate-IsVerdict 30 50 seen
