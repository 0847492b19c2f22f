-- ===== src/Merge/Discrete/Lag.antt =====
-- How far behind its members `Step` leaves the output, and why it ever waits.
use mxl_k8s.Base.{
  ℕ, ◌+◌, ◌≤◌, ◌<◌, ◌≡◌, refl, ◌∙◌, ◌⊎◌, inl, inr, true, false, some, List, arith, length, At-map,
}
use mathlib.Core.Path.{subst}
use mxl_k8s.Base.Int.{ℤ, pos, ◌-ℤ◌, ◌≤ℤ◌, ◌<ℤ◌}
use mxl_k8s.Base.Words.{i64, InI64, sub_time}
use mxl_k8s.Merge.Discrete.{
  Member, DiscretePolicy, Select, Stepped, leading, start_primary, start_head, step,
  primary_skipped, decide, hold,
}
use mxl_k8s.Merge.Discrete.Scan.{Serves}
use mxl_k8s.Merge.Discrete.Turn.{serves-SameConfig, decide-hold, decide-stop}
use mxl_k8s.Merge.Discrete.Run.{
  IsReady, Run, start, turn, Ends, caught_up, stopped, held, Run-SameConfig, Ends-Decided,
}
use mxl_k8s.Merge.Discrete.Step.{begun, begun-SameConfig, step-Returns}

-- The rest of a tolerance that is not over is a positive duration within it.
wait_bounds :
    (tolerance : ℤ) (now since : ℕ)
    → InI64 tolerance
    → since ≤ now
    → sub_time now since <ℤ tolerance
    → (pos 0 <ℤ i64 (tolerance -ℤ sub_time now since))
      × (i64 (tolerance -ℤ sub_time now since) ≤ℤ tolerance)
unfolding sub_time
wait_bounds tolerance now since w h early = ground arith

-- The pass ends with the output waiting for its late primary.
pub record IsWaiting (ms : List Member) (e : DiscretePolicy) (wait : ℤ) : Type 0 where
  pub ordered : e.ordered ≡ true
  pub late : primary_skipped e ms (e.head + 1) ≡ some false
  pub other : (k : ℕ) × Serves e (e.head + 1) ms k
  pub positive : pos 0 <ℤ wait
  pub within : wait ≤ℤ e.tolerance

module _ (ms : List Member) (lead now : ℕ) where
  Run-head : {d e : DiscretePolicy} {s : List Select} → Run ms lead now d e s → d.head ≤ e.head
  Run-head start = omega arith
  Run-head (turn pick r t) = omega (arith, Run-head r, t.head)

  Run-head-le-lead :
      {d e : DiscretePolicy} {s : List Select}
      → Run ms lead now d e s
      → d.head ≤ lead
      → e.head ≤ lead
  Run-head-le-lead start h = h
  Run-head-le-lead (turn pick r t) h = omega (arith, t.head, t.behind)

  Run-since :
      {d e : DiscretePolicy} {s : List Select}
      → Run ms lead now d e s
      → d.waiting_since ≤ now
      → e.waiting_since ≤ now
  Run-since start h = h
  Run-since (turn pick r t) h = t.since (Run-since r h)

  skipped-primary :
      (d e : DiscretePolicy) (index : ℕ)
      → e.primary ≡ d.primary
      → primary_skipped e ms index ≡ primary_skipped d ms index
  unfolding primary_skipped
  skipped-primary d e index h = rw h refl

  held-IsWaiting :
      (d : DiscretePolicy) {e : DiscretePolicy} {wait : ℤ}
      → InI64 d.tolerance
      → d.waiting_since ≤ now
      → decide d ms lead now (d.head + 1) ≡ hold e wait
      → IsWaiting ms e wait
  held-IsWaiting d {e} {wait} w h q =
      let (b, x, (k, other)) = decide-hold d ms lead now (d.head + 1) {e = e} {wait = wait} q in
      let (p, l) = wait_bounds d.tolerance now e.waiting_since w (b.since h) x.early in
      let next : d.head + 1 ≡ e.head + 1 = omega (arith, b.head) in
      record {
        ordered = b.config.ordered ∙ x.ordered;
        late =
            subst (λ i. primary_skipped e ms i ≡ some false) next
              (skipped-primary d e (d.head + 1) x.primary ∙ x.late);
        other = (
          k,
          subst (λ i. Serves e i ms k) next
              (At-map _ _ (λ m p. serves-SameConfig d e m (d.head + 1) b.config ∙ p) ms k other),
        );
        positive = rw x.left p;
        within = rw (x.left, b.config.tolerance) l;
      }

  -- Where the loop ends, the leader is within the skew, or the output waits.
  Ends-lag :
      {d e : DiscretePolicy} {wait : ℤ}
      → InI64 d.tolerance
      → d.waiting_since ≤ now
      → Ends ms lead now d e wait
      → (lead < e.head + 1 + e.skew) ⊎ IsWaiting ms e wait
  Ends-lag w h (caught_up high same _) = inl (rw same (omega arith))
  Ends-lag {d} w h (stopped low q same _) =
      inl (rw same (omega (arith, (decide-stop d ms lead now (d.head + 1) q).1)))
  Ends-lag {d} {e} {wait} w h (held _ q) = inr (held-IsWaiting d {e = e} {wait = wait} w h q)

begun_bounds :
    (d : DiscretePolicy) (ms : List Member) (now : ℕ)
    → d.head ≤ leading ms 0
    → (d.head ≤ (begun d ms).head)
      × ((begun d ms).head ≤ leading ms 0)
      × ((begun d ms).waiting_since ≡ d.waiting_since)
unfolding start_head start_primary
begun_bounds d ms now h = (ground arith, ground arith, ground arith)

-- Where the policy is whole, its tolerance is an int64, the wait did not begin in the future and
-- the head is not past the leading member: one pass moves the head only forward and never past the
-- leading member, and when it returns the leading member is at most the skew ahead, or the output
-- is waiting: an ordered set's primary has not reached the next index, another member serves it,
-- and the wait returned is positive and at most the tolerance.
pub step_lag :
    (d : DiscretePolicy) (ms : List Member) (now : ℕ)
    → IsReady (length ms) d
    → InI64 d.tolerance
    → d.waiting_since ≤ now
    → d.head ≤ leading ms 0
    → (r : Stepped) × (step d ms now ≡ some r)
      × (d.head ≤ r.head)
      × (r.head ≤ leading ms 0)
      × ((leading ms 0 < r.head + 1 + d.skew) ⊎ IsWaiting ms r.state r.wait)
step_lag d ms now h w since low =
    let (r, q, x) = step-Returns d ms now h in
    let (b0, b1, b2) = begun_bounds d ms now low in
    let lead = leading ms 0 in
    let c = Run-SameConfig ms lead now x.run in
    let e = Ends-Decided ms lead now x.ends in
    let wide : InI64 x.last.tolerance = rw (c.tolerance, (begun-SameConfig d ms).tolerance) w in
    let clock : x.last.waiting_since ≤ now = Run-since ms lead now x.run (omega arith) in
    (
      r,
      q,
      omega (arith, x.head, e.head, Run-head ms lead now x.run),
      omega (arith, x.head, e.head, Run-head-le-lead ms lead now x.run b1),
      elim (Ends-lag ms lead now wide clock x.ends) [
        | inl near ↦
            inl (omega (arith, x.head, e.config.skew, c.skew, (begun-SameConfig d ms).skew))
        | inr waiting ↦ inr waiting
      ],
    )
