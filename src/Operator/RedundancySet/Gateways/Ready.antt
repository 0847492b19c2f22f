-- ===== src/Operator/RedundancySet/Gateways/Ready.antt =====
-- Which gateway `gatewayReadySince` finds.
use mxl_k8s.Base.{
  ℕ, ◌≤◌, ◌≡◌, ◌↔◌, refl, ◌⊎◌, inl, inr, Bool, true, false, not, ◌&&◌, ◌||◌, Option, none, some,
  List, [], ◌∷◌, arith, ltb, same_bytes, same_bytes_iff, Bool-cases, if◌then◌else◌,
}
use mxl_k8s.Api.Names.{Bytes}
use mxl_k8s.Operator.RedundancySet.Gateways.{
  PodCondition, Pod, is_earlier, earliest, ready_since, gateway_ready_since,
}

abbrev pub IsReadyBy : ℕ → PodCondition → Type 0
IsReadyBy t c = (c.is_ready ≡ true) × (c.is_true ≡ true) × (c.since ≤ t)

abbrev pub AnyReady : ℕ → List PodCondition → Type 0
AnyReady t [] = ⊥
AnyReady t (c ∷ cs) = IsReadyBy t c ⊎ AnyReady t cs

-- A gateway pod on the node that is not being deleted has been Ready since the time.
abbrev pub HasReady : Bytes → ℕ → List Pod → Type 0
HasReady node t [] = ⊥
HasReady node t (p ∷ ps) =
    ((p.node ≡ node) × (p.deleting ≡ false) × AnyReady t p.conditions) ⊎ HasReady node t ps

abbrev pub SinceBy : ℕ → Option ℕ → Type 0
SinceBy t none = ⊥
SinceBy t (some s) = s ≤ t

one_condition :
    (t : ℕ) (c : PodCondition) (found : Option ℕ)
    → SinceBy t
        (if c.is_ready && c.is_true && is_earlier c.since found then some c.since else found)
      ↔ (SinceBy t found ⊎ IsReadyBy t c)
one_condition t c found = either c.is_ready c.is_true c.since found
  where
    either :
        (r i : Bool) (s : ℕ) (o : Option ℕ)
        → SinceBy t (if r && i && is_earlier s o then some s else o)
          ↔ (SinceBy t o ⊎ ((r ≡ true) × (i ≡ true) × (s ≤ t)))
    either false i s o =
        (λ h. inl h, λ h. elim h [ inl k ↦ k | inr k ↦ absurd (ground (arith, k.0)) ])
    either true false s o =
        (λ h. inl h, λ h. elim h [ inl k ↦ k | inr k ↦ absurd (ground (arith, k.1)) ])
    either true true s none =
        (λ h. inr (refl, refl, h), λ h. elim h [ inl k ↦ absurd k | inr k ↦ k.2 ])
    either true true s (some u) = elim (Bool-cases (ltb s u)) [
      | inl q ↦
          rw q
            (λ h. inr (refl, refl, h), λ h. elim h [ inl k ↦ ground (arith, q, k) | inr k ↦ k.2 ])
      | inr q ↦ rw q (λ h. inl h, λ h. elim h [ inl k ↦ k | inr k ↦ ground (arith, q, k.2) ])
    ]

earliest_iff :
    (t : ℕ) (cs : List PodCondition) (found : Option ℕ)
    → SinceBy t (earliest cs found) ↔ (SinceBy t found ⊎ AnyReady t cs)
unfolding earliest
earliest_iff t [] found = (λ h. inl h, λ h. elim h [ inl k ↦ k | inr k ↦ absurd k ])
earliest_iff t (c ∷ cs) found =
    let next =
      if c.is_ready && c.is_true && is_earlier c.since found then some c.since else found in
    let (f, g) = one_condition t c found in
    let (f', g') = earliest_iff t cs next in
    (
      λ h. elim (f' h) [
        | inr k ↦ inr (inr k)
        | inl k ↦ elim (f k) [ inl m ↦ inl m | inr m ↦ inr (inl m) ]
      ],
      λ h. elim h [
        | inl k ↦ g' (inl (g (inl k)))
        | inr k ↦ elim k [ inl m ↦ g' (inl (g (inr m))) | inr m ↦ g' (inr m) ]
      ],
    )

ready_since_iff :
    (t : ℕ) (ps : List Pod) (node : Bytes) (found : Option ℕ)
    → SinceBy t (ready_since ps node found) ↔ (SinceBy t found ⊎ HasReady node t ps)
unfolding ready_since
ready_since_iff t [] node found = (λ h. inl h, λ h. elim h [ inl k ↦ k | inr k ↦ absurd k ])
ready_since_iff t (p ∷ ps) node found =
    elim (Bool-cases (not (same_bytes p.node node) || p.deleting)) [
      | inl q ↦
          let (f, g) = ready_since_iff t ps node found in
          rw (ready_since, q)
            (
              λ h. elim (f h) [ inl k ↦ inl k | inr k ↦ inr (inr k) ],
              λ h. elim h [
                | inl k ↦ g (inl k)
                | inr k ↦ elim k [
                  | inl m ↦ absurd (ground (arith, q, (same_bytes_iff p.node node).1 m.0, m.1))
                  | inr m ↦ g (inr m)
                ]
              ],
            )
      | inr q ↦
          let here = (same_bytes_iff p.node node).0 (ground (arith, q)) in
          let live : p.deleting ≡ false = ground (arith, q) in
          let (f, g) = ready_since_iff t ps node (earliest p.conditions found) in
          let (f', g') = earliest_iff t p.conditions found in
          rw (ready_since, q)
            (
              λ h. elim (f h) [
                | inr k ↦ inr (inr k)
                | inl k ↦ elim (f' k) [ inl m ↦ inl m | inr m ↦ inr (inl (here, live, m)) ]
              ],
              λ h. elim h [
                | inl k ↦ g (inl (g' (inl k)))
                | inr k ↦ elim k [ inl m ↦ g (inl (g' (inr m.2))) | inr m ↦ g (inr m) ]
              ],
            )
    ]

-- `gatewayReadySince` finds a time no later than `t` exactly where a gateway there has been Ready
-- by then.
pub gateway_ready_since_iff :
    (t : ℕ) (pods : List Pod) (node : Bytes)
    → SinceBy t (gateway_ready_since pods node) ↔ HasReady node t pods
unfolding gateway_ready_since
gateway_ready_since_iff t pods node =
    let (f, g) = ready_since_iff t pods node none in
    (λ h. elim (f h) [ inl k ↦ absurd k | inr k ↦ k ], λ h. g (inr h))
