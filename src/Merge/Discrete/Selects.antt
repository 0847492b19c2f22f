-- ===== src/Merge/Discrete/Selects.antt =====
-- The selects of `Step`, which the engine applies to the views.
use mxl_k8s.Base.{◌≡◌, ◌∙◌, sym, ap, ℕ, ◌≤◌, some, All, All-map, arith, List, length}
use mathlib.Core.Path.{subst}
use mxl_k8s.Merge.Discrete.{Member, DiscretePolicy, Stepped, leading, step}
use mxl_k8s.Merge.Discrete.Run.{IsReady, Ends-Decided}
use mxl_k8s.Merge.Discrete.Replay.{replay, Ascends, Run-replay, Run-Ascends}
use mxl_k8s.Merge.Discrete.Step.{begun, begun-SameConfig, current-begun, step-Returns}

-- Where the policy is whole, the selects that a pass returns, applied in order, turn the sources
-- of the slots into the ones the policy records. They name indices above the head the pass starts
-- from and at most the head it returns, strictly ascending, each for the slot at the index's place
-- of the ring.
pub step-replays :
    (d : DiscretePolicy) (ms : List Member) (now : ℕ)
    → IsReady (length ms) d
    → (r : Stepped) × (step d ms now ≡ some r)
      × (replay r.selects d.current ≡ r.state.current)
      × Ascends d.grains (begun d ms).head r.selects
      × All (λ s. s.index ≤ r.head) r.selects
step-replays d ms now h =
    let (r, q, x) = step-Returns d ms now h in
    let b = Ends-Decided ms (leading ms 0) now x.ends in
    let (up, top, _, _) = Run-Ascends ms (leading ms 0) now x.run in
    (
      r,
      q,
      ap (replay r.selects) (sym (current-begun d ms))
          ∙ Run-replay ms (leading ms 0) now x.run
          ∙ sym b.current,
      subst (λ g. Ascends g (begun d ms).head r.selects) (begun-SameConfig d ms).grains up,
      All-map _ _ (λ s l. omega (arith, x.head, b.head)) r.selects top,
    )
