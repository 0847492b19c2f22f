-- ===== src/Operator/RedundancySet/Members/Checked.antt =====
-- What `validate` answers.
use mxl_k8s.Base.{
  ℕ, ◌≡◌, ◌↔◌, refl, ◌⊎◌, inl, inr, Bool, true, false, not, ◌==◌, ==_iff, ◌≢◌, Option, none, some,
  List, [], ◌∷◌, arith, All, same_bytes_iff, Bool-cases, Option-cases,
}
use mxl_k8s.Api.Names.{Bytes, FlowRef}
use mxl_k8s.Operator.RedundancySet.{SetMember}
use mxl_k8s.Operator.RedundancySet.Members.{
  Reason, members_aligned, members_ready, member_missing, member_stalled, other_domain, misaligned,
  output_taken, gateways_ready, gateway_not_ready, no_nodes, is_empty, disagreement, any_unreadable,
  published, in_domain, agreed_before, validate,
}
use mxl_k8s.Operator.RedundancySet.Members.Agree.{Decides, Agree, disagreement-Agree}

abbrev pub IsInDomain : Bytes → List FlowRef → Type 0
IsInDomain domain = All (λ r. r.domain ≡ domain)

in_domain-All :
    (domain : Bytes) (refs : List FlowRef)
    → Decides (in_domain domain refs) (IsInDomain domain refs)
unfolding in_domain
in_domain-All domain [] = (λ q. tt, λ q. absurd (ground (arith, q)))
in_domain-All domain (r ∷ refs) =
    let (f, g) = in_domain-All domain refs in
    let (to, from) = same_bytes_iff r.domain domain in
    (
      λ q. (to (ground (arith, q)), f (ground (arith, q))),
      λ q h. elim (Bool-cases (in_domain domain refs)) [
        | inl t ↦ absurd (ground (arith, q, t, from h.0))
        | inr t ↦ g t h.1
      ],
    )

-- The set was agreed on before where its Valid condition is true of its generation.
agreed_before_lem :
    (before : Option (Bool × ℕ)) (generation : ℕ)
    → Decides (agreed_before before generation) (before ≡ some (true, generation))
unfolding agreed_before
agreed_before_lem none generation =
    (λ q. absurd (ground (arith, q)), λ q e. absurd (ground (arith, e)))
agreed_before_lem (some (valid, observed)) generation = elim (Bool-cases valid) [
  | inl v ↦ elim (Bool-cases (observed == generation)) [
    | inl o ↦
        (λ q. rw (v, (==_iff observed generation).0 o) refl, λ q. absurd (ground (arith, q, v, o)))
    | inr o ↦ (λ q. absurd (ground (arith, q, v, o)), λ q e. absurd (ground (arith, e, o)))
  ]
  | inr v ↦ (λ q. absurd (ground (arith, q, v)), λ q e. absurd (ground (arith, e, v)))
]

module _ {Value : Type 0} where
  abbrev pub AllReadable : List (SetMember Value) → Type 0
  AllReadable = All (λ m. m.unreadable ≡ false)

  abbrev pub NonePublished : List (SetMember Value) → Type 0
  NonePublished = All (λ m. m.definition ≡ none)

  any_unreadable-All :
      (ms : List (SetMember Value)) → Decides (not (any_unreadable ms)) (AllReadable ms)
  unfolding any_unreadable
  any_unreadable-All [] = (λ q. tt, λ q. absurd (ground (arith, q)))
  any_unreadable-All (m ∷ ms) =
      let (f, g) = any_unreadable-All ms in
      (
        λ q. (ground (arith, q), f (ground (arith, q))),
        λ q h. elim (Bool-cases (any_unreadable ms)) [
          | inr t ↦ absurd (ground (arith, q, t, h.0))
          | inl t ↦ g (ground (arith, t)) h.1
        ],
      )

  published-All : (ms : List (SetMember Value)) → Decides (published ms == 0) (NonePublished ms)
  unfolding published
  published-All [] = (λ q. tt, λ q. absurd (ground (arith, q)))
  published-All (m ∷ ms) =
      let (f, g) = published-All ms in
      elim (Option-cases m.definition) [
        | inl n ↦ rw (published, n) (λ q. (refl, f q), λ q h. g q h.1)
        | inr (d, n) ↦
            rw (published, n) (λ q. absurd (ground (arith, q)), λ q h. absurd (ground (arith, h.0)))
      ]

  -- What each answer says, of the Valid condition that the set had before.
  abbrev pub IsChecked :
      Bool
      → Bytes
      → List FlowRef
      → Option (Bool × ℕ)
      → ℕ
      → List (SetMember Value)
      → Reason
      → Bool
      → Type 0
  IsChecked taken domain refs before generation ms output_taken status =
      (status ≡ false) × (taken ≡ true)
  IsChecked taken domain refs before generation ms other_domain status =
      (status ≡ false) × (taken ≡ false) × ¬ IsInDomain domain refs
  IsChecked taken domain refs before generation ms misaligned status =
      (status ≡ false)
      × (taken ≡ false)
      × IsInDomain domain refs
      × (before ≢ some (true, generation))
      × ¬ (AllReadable ms × Agree ms)
  IsChecked taken domain refs before generation ms member_missing status =
      (status ≡ false)
      × (taken ≡ false)
      × IsInDomain domain refs
      × (before ≢ some (true, generation))
      × (AllReadable ms × Agree ms)
      × NonePublished ms
  IsChecked taken domain refs before generation ms members_aligned status =
      (status ≡ true)
      × (taken ≡ false)
      × IsInDomain domain refs
      × ((before ≡ some (true, generation)) ⊎ (AllReadable ms × Agree ms × ¬ NonePublished ms))
  IsChecked taken domain refs before generation ms members_ready status = ⊥
  IsChecked taken domain refs before generation ms member_stalled status = ⊥
  IsChecked taken domain refs before generation ms gateways_ready status = ⊥
  IsChecked taken domain refs before generation ms gateway_not_ready status = ⊥
  IsChecked taken domain refs before generation ms no_nodes status = ⊥

-- Where `same` decides equality of values: `validate` fails a set whose output is a flow of its
-- own; then one with a member in another domain; then, unless its members agreed before at this
-- generation, one where a definition is unreadable or two have different values at an aligned key,
-- and one where no member has a definition. It passes every other set, whatever the members of one
-- that agreed before are now.
pub validate-IsChecked :
    {Value : Type 0} (same : Value → Value → Bool) (taken : Bool) (domain : Bytes)
    (refs : List FlowRef) (before : Option (Bool × ℕ)) (generation : ℕ)
    (ms : List (SetMember Value))
    → ((v w : Value) → (same v w ≡ true) ↔ (v ≡ w))
    → IsChecked taken domain refs before generation ms
        (validate same taken domain refs before generation ms).reason
        (validate same taken domain refs before generation ms).status
unfolding validate
validate-IsChecked same taken domain refs before generation ms is =
    let (agreed, differs) = agreed_before_lem before generation in
    let (here, not_here) = in_domain-All domain refs in
    let (read, not_read) = any_unreadable-All ms in
    let (agree, not_agree) = disagreement-Agree same is ms in
    let (no_one, some_one) = published-All ms in
    elim (Bool-cases taken) [
      | inl t ↦ rw (validate, t) (refl, refl)
      | inr t ↦ elim (Bool-cases (in_domain domain refs)) [
        | inr d ↦ rw (validate, t, d) (refl, refl, not_here d)
        | inl d ↦ elim (Bool-cases (agreed_before before generation)) [
          | inl b ↦ rw (validate, t, d, b) (refl, refl, here d, inl (agreed b))
          | inr b ↦ elim (Bool-cases (any_unreadable ms)) [
            | inl u ↦
                rw (validate, t, d, b, u)
                  (refl, refl, here d, differs b, λ h. not_read (ground (arith, u)) h.0)
            | inr u ↦ elim (Bool-cases (is_empty (disagreement same ms))) [
              | inr e ↦
                  rw (validate, t, d, b, u, e) (refl, refl, here d, differs b, λ h. not_agree e h.1)
              | inl e ↦ elim (Bool-cases (published ms == 0)) [
                | inl p ↦
                    rw (validate, t, d, b, u, e, p)
                      (refl, refl, here d, differs b, (read (ground (arith, u)), agree e), no_one p)
                | inr p ↦
                    rw (validate, t, d, b, u, e, p)
                      (refl, refl, here d, inr (read (ground (arith, u)), agree e, some_one p))
              ]
            ]
          ]
        ]
      ]
    ]
