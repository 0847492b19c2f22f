-- ===== src/Operator/RedundancySet/Gateways/Answer.antt =====
-- What `outputReady` answers, and when it answers otherwise.
use mathlib.Core.Path.{subst}
use mxl_k8s.Base.{
  ℕ, ◌+◌, ◌≤◌, ◌≡◌, ◌↔◌, refl, sym, ◌⊎◌, inl, inr, true, false, some, List, [], ◌∷◌, arith, All,
  All-map, Bool-cases, Option-cases,
}
use mxl_k8s.Base.Int.{ℤ, pos, pos_part}
use mxl_k8s.Api.Names.{Bytes}
use mxl_k8s.Operator.RedundancySet.Members.{gateways_ready, gateway_not_ready, no_nodes, is_empty}
use mxl_k8s.Operator.RedundancySet.Gateways.Ready.{HasReady, SinceBy, gateway_ready_since_iff}
use mxl_k8s.Operator.RedundancySet.Gateways.{
  Pod, gateway_settle, gateway_ready_since, scan_gateways, Served, output_ready,
}
use mxl_k8s.Operator.RedundancySet.Gateways.Settled.{
  IsTime, IsSettled, AreTimes, Scanned, scan_gateways-Scanned,
}

module _ (pods : List Pod) where
  -- What an answer says at a time.
  abbrev pub SettledAt : ℕ → Bytes → Type 0
  SettledAt now node = (t : ℕ) × HasReady node t pods × (t + gateway_settle ≤ now)

  IsSettled-SettledAt : (now : ℕ) (node : Bytes) → IsSettled pods now node → SettledAt now node
  IsSettled-SettledAt now node (t, e, l) =
      (t, (gateway_ready_since_iff t pods node).0 (subst (SinceBy t) (sym e) (omega arith)), l)

  ready_found :
      (t : ℕ) (node : Bytes)
      → HasReady node t pods
      → (s : ℕ) × (gateway_ready_since pods node ≡ some s) × (s ≤ t)
  ready_found t node h =
      let k = (gateway_ready_since_iff t pods node).1 h in
      elim (Option-cases (gateway_ready_since pods node)) [
        | inl q ↦ absurd (subst (SinceBy t) q k)
        | inr (s, q) ↦ (s, q, subst (SinceBy t) q k)
      ]

  SettledAt-IsSettled : (now : ℕ) (node : Bytes) → SettledAt now node → IsSettled pods now node
  SettledAt-IsSettled now node (t, h, l) =
      let (s, e, b) = ready_found t node h in (s, e, omega arith)

  -- What the condition says, and the time that is left.
  pub record IsServed (now : ℕ) (nodes : List Bytes) (o : Served) : Type 0 where
    pub served : o.status ≡ true → All (SettledAt now) nodes
    pub unserved : o.status ≡ false → ¬ All (SettledAt now) nodes
    pub over : o.status ≡ true → o.settling ≡ pos 0
    pub left : o.settling ≡ pos (pos_part o.settling)
    pub enough :
        All
          (λ n.
            (t : ℕ)
            → HasReady n t pods
            → (s : ℕ) × HasReady n s pods × (s + gateway_settle ≤ now + pos_part o.settling))
          nodes
        ⊎ (o.status ≡ true)

  scan_answer :
      (now : ℕ) (node : Bytes) (nodes : List Bytes) (down : List Bytes) (s : ℤ)
      → scan_gateways now pods (node ∷ nodes) (pos 0) ≡ (down, s)
      → Scanned pods now (node ∷ nodes) 0 down s
      → (o : Served) × (output_ready now (some pods) (node ∷ nodes) ≡ some o)
        × IsServed now (node ∷ nodes) o
  unfolding output_ready
  scan_answer now node nodes down s e r = elim (Bool-cases (is_empty down)) [
    | inl q ↦ (
      record { status = true; reason = gateways_ready; down = []; settling = pos 0 },
      rw (output_ready, e, q) refl,
      record {
        served = λ t. All-map _ _ (IsSettled-SettledAt now) (node ∷ nodes) (r.settled q);
        unserved = λ t. absurd (ground (arith, t));
        over = λ t. refl;
        left = refl;
        enough = inr refl;
      },
    )
    | inr q ↦ (
      record { status = false; reason = gateway_not_ready; down = down; settling = s },
      rw (output_ready, e, q) refl,
      record {
        served = λ t. absurd (ground (arith, t));
        unserved = λ t a. r.unsettled q (All-map _ _ (SettledAt-IsSettled now) (node ∷ nodes) a);
        over = λ t. absurd (ground (arith, t));
        left = r.value;
        enough = inl (
            All-map _ _
              (λ n k t h.
                let (u, e', b) = ready_found t n h in
                (
                  u,
                  (gateway_ready_since_iff u pods n).0 (subst (SinceBy u) (sym e') (omega arith)),
                  k u e',
                ))
              (node ∷ nodes) r.covers);
      },
    )
  ]

  answered :
      (now : ℕ) (nodes : List Bytes)
      → IsTime now
      → AreTimes pods
      → (o : Served) × (output_ready now (some pods) nodes ≡ some o) × IsServed now nodes o
  unfolding output_ready
  answered now [] h times = (
    record { status = true; reason = no_nodes; down = []; settling = pos 0 },
    refl,
    record {
      served = λ t. tt;
      unserved = λ t. absurd (ground (arith, t));
      over = λ t. refl;
      left = refl;
      enough = inr refl;
    },
  )
  answered now (node ∷ nodes) h times =
      let p = scan_gateways now pods (node ∷ nodes) (pos 0) in
      scan_answer now node nodes p.0 p.1 refl
        (scan_gateways-Scanned pods now h times (node ∷ nodes) 0)

-- Where the times are below 2^62 ns: `outputReady` returns, and is true exactly where each node
-- has a gateway pod that is not being deleted and has been Ready for 5 s; then nothing is
-- settling.
pub output_ready-IsServed :
    (pods : List Pod) (now : ℕ) (nodes : List Bytes)
    → IsTime now
    → AreTimes pods
    → (o : Served) × (output_ready now (some pods) nodes ≡ some o)
      × ((o.status ≡ true) ↔ All (SettledAt pods now) nodes)
      × (o.status ≡ true → o.settling ≡ pos 0)
output_ready-IsServed pods now nodes h times =
    let (o, e, r) = answered pods now nodes h times in
    (
      o,
      e,
      (r.served, λ a. elim (Bool-cases o.status) [ inl q ↦ q | inr q ↦ absurd (r.unserved q a) ]),
      r.over,
    )

-- Where the times are below 2^62 ns and each node has a gateway pod that is not being deleted and
-- is Ready: asked again after what the first answer says is settling, or later, with the same
-- pods, `outputReady` is true.
pub output_ready-settles :
    (pods : List Pod) (now later : ℕ) (nodes : List Bytes)
    → IsTime now
    → IsTime later
    → AreTimes pods
    → All (λ n. (t : ℕ) × HasReady n t pods) nodes
    → (o : Served) × (p : Served) × (output_ready now (some pods) nodes ≡ some o)
      × (o.settling ≡ pos (pos_part o.settling))
      × (output_ready later (some pods) nodes ≡ some p)
      × (now + pos_part o.settling ≤ later → p.status ≡ true)
output_ready-settles pods now later nodes h h' times ready =
    let (o, e, r) = answered pods now nodes h times in
    let (p, e', r') = answered pods later nodes h' times in
    (
      o,
      p,
      e,
      r.left,
      e',
      λ l. elim (Bool-cases p.status) [
        | inl q ↦ q
        | inr q ↦ absurd (
            r'.unserved q (elim r.enough [
              | inr t ↦ All-map _ _ (λ n k. (k.0, k.1, omega (arith, k.2, l))) nodes (r.served t)
              | inl f ↦ settled (pos_part o.settling) nodes ready f l
            ]))
      ],
    )
  where
    settled :
        (wait : ℕ) (ns : List Bytes)
        → All (λ n. (t : ℕ) × HasReady n t pods) ns
        → All
            (λ n.
              (t : ℕ)
              → HasReady n t pods
              → (s : ℕ) × HasReady n s pods × (s + gateway_settle ≤ now + wait))
            ns
        → now + wait ≤ later
        → All (SettledAt pods later) ns
    settled wait [] k f l = tt
    settled wait (n ∷ ns) k f l =
        let (s, b, c) = f.0 k.0.0 k.0.1 in ((s, b, omega (arith, c, l)), settled wait ns k.1 f.1 l)
