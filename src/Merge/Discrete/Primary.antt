-- ===== src/Merge/Discrete/Primary.antt =====
-- The primary of an ordered set serves every grain it has.
use mxl_k8s.Base.{
  ℕ, zero, suc, ◌+◌, ◌-◌, ◌%◌, ◌≤◌, ◌<◌, ◌≡◌, refl, sym, ap, ◌∙◌, inl, inr, true, Option, none,
  some, List, [], ◌++◌, arith, At-map, length, get_elem?, length-set, ltb, get_elem?_of_lt,
  get_elem?-set_self, get_elem?-set_ne, mod-ne, Bool-cases, ltb→le, ltb→lt,
}
use native.Mathlib.Decide.{dec_lt}
use mxl_k8s.Base.Int.{pos}
use mxl_k8s.Merge.Discrete.{
  Member, DiscretePolicy, Select, Stepped, show, scan, choose, decide, publish, finish, advance,
  leading, step,
}
use mxl_k8s.Merge.Discrete.Scan.{Serves, scan-primary}
use mxl_k8s.Merge.Discrete.Turn.{serves-SameConfig, Published, Published-publish, publish-total}
use mxl_k8s.Merge.Discrete.Run.{advance_caught, advance_show}
use mxl_k8s.Merge.Discrete.Step.{begun}

-- An ordered set whose primary, member `p`, serves every index from the head to `lead`.
pub record IsServing (ms : List Member) (lead : ℕ) (d : DiscretePolicy) (p : ℕ) : Type 0 where
  pub ordered : d.ordered ≡ true
  pub primary : d.primary ≡ some p
  pub deep : 2 ≤ d.grains
  pub ring : length d.current ≡ d.grains
  pub low : d.head ≤ lead
  pub serves : (i : ℕ) → d.head < i → i ≤ lead → Serves d i ms p

module _ (ms : List Member) (lead now p : ℕ) where
  choose_pick :
      (d : DiscretePolicy) (index : ℕ) (found : Option ℕ × Option ℕ)
      → found.0 ≡ some p
      → choose d ms lead now index found ≡ show d p
  unfolding choose
  choose_pick d index (some q, alt) e = ground arith
  choose_pick d index (none, alt) e = absurd (ground arith)

  decide_primary :
      (d : DiscretePolicy)
      → IsServing ms lead d p
      → d.head < lead
      → decide d ms lead now (d.head + 1) ≡ show d p
  unfolding decide
  decide_primary d h l = choose_pick d (d.head + 1) (scan d (d.head + 1) 0 ms (none, none)) (
      scan-primary d (d.head + 1) p 0 ms (none, none) p h.ordered h.primary (omega arith)
        (h.serves (d.head + 1) (omega arith) (omega arith)))

  primary-publish :
      (d : DiscretePolicy) (index : ℕ) {e : DiscretePolicy} {s : List Select}
      → d.primary ≡ some p
      → publish d p index ≡ some (e, s)
      → e.primary ≡ some p
  unfolding publish
  primary-publish d index h q = ground arith

  publish-IsServing :
      (d e : DiscretePolicy) (s : List Select)
      → IsServing ms lead d p
      → d.head < lead
      → publish d p (d.head + 1) ≡ some (e, s)
      → Published (length ms) d p (d.head + 1) e s
      → IsServing ms lead e p
  publish-IsServing d e s h l q k = record {
    ordered = k.config.ordered ∙ h.ordered;
    primary = primary-publish d (d.head + 1) {e = e} {s = s} h.primary q;
    deep = rw k.config.grains h.deep;
    ring =
        ap length k.current
        ∙ length-set d.current ((d.head + 1) % d.grains) p
        ∙ h.ring
        ∙ sym k.config.grains;
    low = omega (arith, k.head);
    serves = λ i a b.
        At-map _ _ (λ m x. serves-SameConfig d e m i k.config ∙ x) ms p
          (h.serves i (omega (arith, k.head)) b);
  }

  -- Every index after `from` that the ring still holds shows the primary.
  abbrev pub ShowsPrimary : ℕ → DiscretePolicy → Type 0
  ShowsPrimary from d =
      (i : ℕ)
      → from < i
      → i ≤ d.head
      → d.head < i + d.grains
      → get_elem? d.current (i % d.grains) ≡ some p

  Published-ShowsPrimary :
      (from : ℕ) (d e : DiscretePolicy) (s : List Select)
      → IsServing ms lead d p
      → Published (length ms) d p (d.head + 1) e s
      → ShowsPrimary from d
      → ShowsPrimary from e
  Published-ShowsPrimary from d e s h k shown i a b c = elim (dec_lt d.head i) [
    | yes new ↦
        let same : i ≡ d.head + 1 = omega (arith, k.head) in
        rw (same, k.config.grains, k.current)
          (get_elem?-set_self d.current ((d.head + 1) % d.grains) p (omega (arith, h.ring, h.deep)))
    | no old ↦
        rw (k.config.grains, k.current)
          (get_elem?-set_ne d.current p (λ q.
              mod-ne d.grains i (d.head + 1) (omega (arith, h.deep)) (omega arith)
                (omega (arith, k.head, k.config.grains)) (sym q))
            ∙ shown i a (omega arith) (omega (arith, k.head, k.config.grains)))
  ]

  -- What the loop returns while the primary serves.
  abbrev Serving : ℕ → ℕ → DiscretePolicy → List Select → Type 0
  Serving from fuel d s =
      (r : Stepped) × (advance fuel ms lead now d s ≡ some r)
      × (r.head ≡ lead)
      × (r.wait ≡ pos 0)
      × (r.state.head ≡ lead)
      × (r.state.primary ≡ some p)
      × ShowsPrimary from r.state

  advance-Serving :
      (from fuel : ℕ) (d : DiscretePolicy) (s : List Select)
      → IsServing ms lead d p
      → ShowsPrimary from d
      → lead - d.head < fuel
      → Serving from fuel d s
  advance-Serving from zero d s h shown f = absurd (omega arith)
  advance-Serving from (suc fuel) d s h shown f = elim (Bool-cases (ltb d.head lead)) [
    | inr q ↦
        let top : d.head ≡ lead = omega (arith, ltb→le _ _ q, h.low) in
        (
          finish d s (pos 0),
          advance_caught ms lead now fuel d s q,
          top,
          refl,
          top,
          h.primary,
          shown,
        )
    | inl q ↦
        let l : d.head < lead = ltb→lt _ _ q in
        let (old, g) =
          get_elem?_of_lt d.current ((d.head + 1) % d.grains) (omega (arith, h.ring, h.deep)) in
        let (e, t, u) = publish-total d p (d.head + 1) {old = old} g in
        let k = Published-publish (length ms) d p (d.head + 1) {old = old} {e = e} {s = t} g u in
        let (r, x, x1, x2, x3, x4, x5) =
          advance-Serving from fuel e (s ++ t) (publish-IsServing d e t h l u k)
            (Published-ShowsPrimary from d e t h k shown) (omega (arith, k.head)) in
        (
          r,
          advance_show ms lead now fuel d d e p s t q h.deep (decide_primary d h l) u ∙ x,
          x1,
          x2,
          x3,
          x4,
          x5,
        )
  ]

-- An ordered set's primary serves every grain it has: where the primary serves every index from
-- the head to the leading member, one pass publishes all of them, waits for nothing, keeps the
-- primary, and every index it published that the ring holds shows the primary, whatever the other
-- members hold.
pub step_primary :
    (d : DiscretePolicy) (ms : List Member) (now p : ℕ)
    → IsServing ms (leading ms 0) (begun d ms) p
    → (r : Stepped) × (step d ms now ≡ some r)
      × (r.head ≡ leading ms 0)
      × (r.wait ≡ pos 0)
      × (r.state.head ≡ leading ms 0)
      × (r.state.primary ≡ some p)
      × ShowsPrimary ms (leading ms 0) now p (begun d ms).head r.state
unfolding step
step_primary d ms now p k =
    advance-Serving ms (leading ms 0) now p (begun d ms).head
      (suc (leading ms 0 - (begun d ms).head)) (begun d ms) [] k (λ i a b c. absurd (omega arith))
      (omega arith)
