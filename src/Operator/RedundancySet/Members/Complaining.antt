-- ===== src/Operator/RedundancySet/Members/Complaining.antt =====
-- What the loop of `membersReady` complains of.
use mathlib.Core.Path.{subst}
use mxl_k8s.Base.{
  ◌≡◌, ◌≢◌, refl, inl, inr, Bool, true, false, not, List, [], ◌∷◌, arith, All, same_bytes,
  same_bytes_iff, Bool-cases,
}
use mxl_k8s.Api.Names.{Bytes}
use mxl_k8s.Operator.RedundancySet.{SetMember}
use mxl_k8s.Operator.RedundancySet.Members.{
  no_flow, no_definition, no_producer, not_advanced, StalledMembers, contains_name, is_empty,
  Complaints, stalls_of, complain,
}
use mxl_k8s.Operator.RedundancySet.Members.Agree.{Decides}

contains_name-All :
    (names : List Bytes) (name : Bytes)
    → Decides (not (contains_name names name)) (All (λ n. n ≢ name) names)
unfolding contains_name
contains_name-All [] name = (λ q. tt, λ q. absurd (ground (arith, q)))
contains_name-All (n ∷ names) name =
    let (f, g) = contains_name-All names name in
    let (to, from) = same_bytes_iff n name in
    (
      λ q. (λ e. absurd (ground (arith, q, from e)), f (ground (arith, q))),
      λ q h. elim (Bool-cases (same_bytes n name)) [
        | inl t ↦ h.0 (to t)
        | inr t ↦ g (ground (arith, q, t)) h.1
      ],
    )

-- The flow has advanced on every node that reports stalled members.
abbrev pub Advances : List StalledMembers → Bytes → Type 0
Advances stalled id = All (λ s. All (λ n. n ≢ id) s.flow_ids) stalled

stalls_of-Advances :
    (stalled : List StalledMembers) (id : Bytes)
    → Decides (is_empty (stalls_of stalled id)) (Advances stalled id)
unfolding stalls_of
stalls_of-Advances [] id = (λ q. tt, λ q. absurd (ground (arith, q)))
stalls_of-Advances (s ∷ ss) id =
    let (f, g) = stalls_of-Advances ss id in
    let (f', g') = contains_name-All s.flow_ids id in
    elim (Bool-cases (contains_name s.flow_ids id)) [
      | inl t ↦
          rw (stalls_of, t) (λ q. absurd (ground (arith, q)), λ q h. g' (ground (arith, t)) h.0)
      | inr t ↦ rw (stalls_of, t) (λ q. (f' (ground (arith, t)), f q), λ q h. g q h.1)
    ]

-- One more member that a list does not name, and one that it names.
passes : {P : Type 0} {Q : Type 0} {b : Bool} → P → Decides b Q → Decides b (P × Q)
passes p (f, g) = (λ q. (p, f q), λ q h. g q h.1)

named : {P : Type 0} {Q : Type 0} → ¬ P → Decides false (P × Q)
named n = (λ q. absurd (ground (arith, q)), λ q h. n h.0)

module _ {Value : Type 0} where
  -- It has a flow, and one that is readable has a producer.
  abbrev pub IsProduced : SetMember Value → Type 0
  IsProduced m = (m.has_flow ≡ true) × (m.unreadable ≡ false → m.origin_found ≡ true)

  abbrev pub IsReadable : SetMember Value → Type 0
  IsReadable m = m.has_flow ≡ true → m.unreadable ≡ false

  -- A member that is produced and readable advances.
  abbrev pub IsMoving : List StalledMembers → SetMember Value → Type 0
  IsMoving stalled m =
      m.has_flow ≡ true → m.unreadable ≡ false → m.origin_found ≡ true → Advances stalled m.ref.id

  pub record Complained (stalled : List StalledMembers) (ms : List (SetMember Value))
      (c : Complaints) : Type 0 where
    pub missing : Decides (is_empty c.missing) (All IsProduced ms)
    pub apart : Decides (is_empty c.apart) (All IsReadable ms)
    pub stalls : Decides (is_empty c.stalls) (All (IsMoving stalled) ms)

  pub complain-Complained :
      (stalled : List StalledMembers) (ms : List (SetMember Value))
      → Complained stalled ms (complain stalled ms)
  unfolding complain
  complain-Complained stalled [] = record {
    missing = (λ q. tt, λ q. absurd (ground (arith, q)));
    apart = (λ q. tt, λ q. absurd (ground (arith, q)));
    stalls = (λ q. tt, λ q. absurd (ground (arith, q)));
  }
  complain-Complained stalled (m ∷ ms) =
      let r = complain-Complained stalled ms in
      let rest = complain stalled ms in
      let goes = Complained stalled (m ∷ ms) in
      let (moves, stands) = stalls_of-Advances stalled m.ref.id in
      elim (Bool-cases m.has_flow) [
        | inr h ↦
            let same : record rest { missing = no_flow m.ref ∷ rest.missing }
                ≡ complain stalled (m ∷ ms) =
              rw (complain, h) refl in
            subst goes same (record {
              missing = named (λ k. absurd (ground (arith, h, k.0)));
              apart = passes (λ e. absurd (ground (arith, h, e))) r.apart;
              stalls = passes (λ e. absurd (ground (arith, h, e))) r.stalls;
            })
        | inl h ↦ elim (Bool-cases m.unreadable) [
          | inl u ↦
              let same : record rest { apart = no_definition m.ref ∷ rest.apart }
                  ≡ complain stalled (m ∷ ms) =
                rw (complain, h, u) refl in
              subst goes same (record {
                missing = passes (h, λ e. absurd (ground (arith, u, e))) r.missing;
                apart = named (λ k. absurd (ground (arith, u, k h)));
                stalls = passes (λ e e'. absurd (ground (arith, u, e'))) r.stalls;
              })
          | inr u ↦ elim (Bool-cases m.origin_found) [
            | inr o ↦
                let same : record rest { missing = no_producer m.ref ∷ rest.missing }
                    ≡ complain stalled (m ∷ ms) =
                  rw (complain, h, u, o) refl in
                subst goes same (record {
                  missing = named (λ k. absurd (ground (arith, o, k.1 u)));
                  apart = passes (λ e. u) r.apart;
                  stalls = passes (λ e e' e''. absurd (ground (arith, o, e''))) r.stalls;
                })
            | inl o ↦ elim (Bool-cases (is_empty (stalls_of stalled m.ref.id))) [
              | inl s ↦
                  let same : rest ≡ complain stalled (m ∷ ms) = rw (complain, h, u, o, s) refl in
                  subst goes same (record {
                    missing = passes (h, λ e. o) r.missing;
                    apart = passes (λ e. u) r.apart;
                    stalls = passes (λ e e' e''. moves s) r.stalls;
                  })
              | inr s ↦
                  let same : record rest {
                    stalls = not_advanced m.ref (stalls_of stalled m.ref.id) ∷ rest.stalls;
                  }
                      ≡ complain stalled (m ∷ ms) =
                    rw (complain, h, u, o, s) refl in
                  subst goes same (record {
                    missing = passes (h, λ e. o) r.missing;
                    apart = passes (λ e. u) r.apart;
                    stalls = named (λ k. stands s (k h u o));
                  })
            ]
          ]
        ]
      ]
