-- ===== src/Operator/RedundancySet/Gateways/Settled.antt =====
-- The loop of `outputReady` over the nodes.
use mathlib.Core.Path.{subst}
use native.Mathlib.Decide.{dec_lt}
use mxl_k8s.Base.{
  max, ℕ, ◌+◌, ◌-◌, ◌^◌, ◌≤◌, ◌<◌, ◌≡◌, refl, sym, ap, ◌∙◌, ◌⊎◌, inl, inr, true, false, some, List,
  [], ◌∷◌, arith, All, Option-cases,
}
use mxl_k8s.Base.Int.{ℤ, pos, negsuc, pos_part, ◌-ℤ◌, ltb_ℤ}
use mxl_k8s.Base.Words.{sub_time, sub_i64, sub_i64_same}
use mxl_k8s.Api.Names.{Bytes}
use mxl_k8s.Operator.RedundancySet.Members.{is_empty}
use mxl_k8s.Operator.RedundancySet.Gateways.{
  Pod, gateway_settle, gateway_ready_since, max_ℤ, left_of, scan_gateways,
}

-- Times in a range where their differences are exact.
abbrev pub IsTime : ℕ → Type 0
IsTime t = t < 2 ^ 62

after_since : (now since : ℕ) → IsTime now → since ≤ now → sub_time now since ≡ pos (now - since)
unfolding sub_time
after_since now since h k = ground arith

before_since :
    (now since : ℕ) → IsTime since → now < since → sub_time now since ≡ negsuc (since - now - 1)
unfolding sub_time
before_since now since h k = ground arith

left_now : (d : ℕ) → IsTime d → sub_i64 (pos gateway_settle) (pos d) ≡ pos gateway_settle -ℤ pos d
left_now d h = sub_i64_same (pos gateway_settle) (pos d) (ground arith)

left_future :
    (d : ℕ) → IsTime d → sub_i64 (pos gateway_settle) (negsuc d) ≡ pos gateway_settle -ℤ negsuc d
left_future d h = sub_i64_same (pos gateway_settle) (negsuc d) (ground arith)

left_of_lem :
    (now since : ℕ)
    → IsTime now
    → IsTime since
    → ((left_of now since ≡ pos (since + gateway_settle - now)) × (now < since + gateway_settle))
      ⊎ ((ltb_ℤ (pos 0) (left_of now since) ≡ false) × (since + gateway_settle ≤ now))
unfolding left_of
left_of_lem now since h k =
    let settle = sub_i64 (pos gateway_settle) in
    elim (dec_lt now since) [
      | yes p ↦
          let exact : pos gateway_settle -ℤ negsuc (since - now - 1)
              ≡ pos (since + gateway_settle - now) =
            ground arith in
          inl (
            ap settle (before_since now since k p)
                ∙ left_future (since - now - 1) (omega arith)
                ∙ exact,
            omega arith,
          )
      | no p ↦
          let there : left_of now since ≡ pos gateway_settle -ℤ pos (now - since) =
            ap settle (after_since now since h (omega arith))
            ∙ left_now (now - since) (omega arith) in
          elim (dec_lt now (since + gateway_settle)) [
            | yes q ↦
                let exact : pos gateway_settle -ℤ pos (now - since)
                    ≡ pos (since + gateway_settle - now) =
                  ground arith in
                inl (there ∙ exact, q)
            | no q ↦
                let over : ltb_ℤ (pos 0) (pos gateway_settle -ℤ pos (now - since)) ≡ false =
                  ground arith in
                inr (ap (ltb_ℤ (pos 0)) there ∙ over, omega arith)
          ]
    ]

module _ (pods : List Pod) where
  -- A gateway on the node has been ready for long enough.
  abbrev pub IsSettled : ℕ → Bytes → Type 0
  IsSettled now node =
      (t : ℕ) × (gateway_ready_since pods node ≡ some t) × (t + gateway_settle ≤ now)

  -- The times of the gateways are in range.
  abbrev pub AreTimes : Type 0
  AreTimes = (node : Bytes) (t : ℕ) → gateway_ready_since pods node ≡ some t → IsTime t

  pub record Scanned (now : ℕ) (nodes : List Bytes) (k : ℕ) (down : List Bytes) (settling : ℤ)
      : Type 0 where
    pub value : settling ≡ pos (pos_part settling)
    pub settled : is_empty down ≡ true → All (IsSettled now) nodes
    pub unsettled : is_empty down ≡ false → ¬ All (IsSettled now) nodes
    pub up : k ≤ pos_part settling
    pub covers :
        All
          (λ n.
            (t : ℕ)
            → gateway_ready_since pods n ≡ some t
            → t + gateway_settle ≤ now + pos_part settling)
          nodes

  nothing-Scanned : (now k : ℕ) → Scanned now [] k [] (pos k)
  nothing-Scanned now k = record {
    value = refl;
    settled = λ q. tt;
    unsettled = λ q. absurd (ground (arith, q));
    up = omega arith;
    covers = tt;
  }

  -- A node that is down, with what is left of its time or with no gateway.
  one_down :
      (now : ℕ) (node : Bytes) (nodes : List Bytes) (k k' : ℕ) (down : List Bytes) (s : ℤ)
      → k ≤ k'
      → ((t : ℕ)
          → gateway_ready_since pods node ≡ some t
          → (t + gateway_settle ≤ now + k') × (now < t + gateway_settle))
      → Scanned now nodes k' down s
      → Scanned now (node ∷ nodes) k (node ∷ down) s
  one_down now node nodes k k' down s l h r = record {
    value = r.value;
    settled = λ q. absurd (ground (arith, q));
    unsettled = λ q a. let (t, e, b) = a.0 in absurd (omega (arith, (h t e).1));
    up = omega (arith, r.up);
    covers = ((λ t e. omega (arith, r.up, (h t e).0)), r.covers);
  }

  one_settled :
      (now : ℕ) (node : Bytes) (nodes : List Bytes) (k : ℕ) (down : List Bytes) (s : ℤ)
      → IsSettled now node
      → Scanned now nodes k down s
      → Scanned now (node ∷ nodes) k down s
  one_settled now node nodes k down s (t, e, l) r = record {
    value = r.value;
    settled = λ q. ((t, e, l), r.settled q);
    unsettled = λ q a. r.unsettled q a.1;
    up = r.up;
    covers = (
      (λ t' e'. let same : t ≡ t' = ground (arith, sym e ∙ e') in omega (arith, same, l)),
      r.covers,
    );
  }

  pub scan_gateways-Scanned :
      (now : ℕ)
      → IsTime now
      → AreTimes
      → (nodes : List Bytes) (k : ℕ)
      → Scanned now nodes k
          (scan_gateways now pods nodes (pos k)).0
          (scan_gateways now pods nodes (pos k)).1
  unfolding scan_gateways
  scan_gateways-Scanned now h times [] k = nothing-Scanned now k
  scan_gateways-Scanned now h times (node ∷ nodes) k =
      let goes : List Bytes × ℤ → Type 0 = λ p. Scanned now (node ∷ nodes) k p.0 p.1 in
      elim (Option-cases (gateway_ready_since pods node)) [
        | inl q ↦
            let rest = scan_gateways now pods nodes (pos k) in
            let same : (node ∷ rest.0, rest.1) ≡ scan_gateways now pods (node ∷ nodes) (pos k) =
              rw (scan_gateways, q) refl in
            subst goes same (
              one_down now node nodes k k rest.0 rest.1 (omega arith)
                (λ t e. absurd (ground (arith, sym q ∙ e)))
                (scan_gateways-Scanned now h times nodes k))
        | inr (since, q) ↦ elim (left_of_lem now since h (times node since q)) [
          | inr (z, l) ↦
              let rest = scan_gateways now pods nodes (pos k) in
              let same : rest ≡ scan_gateways now pods (node ∷ nodes) (pos k) =
                rw (scan_gateways, q, z) refl in
              subst goes same (
                one_settled now node nodes k rest.0 rest.1 (since, q, l)
                  (scan_gateways-Scanned now h times nodes k))
          | inl (z, l) ↦
              let left = since + gateway_settle - now in
              let more = max k left in
              let rest = scan_gateways now pods nodes (pos more) in
              let some_left : ltb_ℤ (pos 0) (pos left) ≡ true = ground arith in
              let most : max_ℤ (pos k) (pos left) ≡ pos more = ground arith in
              let same : (node ∷ rest.0, rest.1) ≡ scan_gateways now pods (node ∷ nodes) (pos k) =
                rw (scan_gateways, q, z, some_left, most) refl in
              subst goes same (
                one_down now node nodes k more rest.0 rest.1 (omega arith)
                  (λ t e.
                    let same_time : since ≡ t = ground (arith, sym q ∙ e) in
                    (omega (arith, same_time), omega (arith, same_time)))
                  (scan_gateways-Scanned now h times nodes more))
        ]
      ]
