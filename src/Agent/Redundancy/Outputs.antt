-- ===== src/Agent/Redundancy/Outputs.antt =====
-- Which flows are outputs of sets, and what a failed lookup answers.
use mxl_k8s.Base.{
  ◌≡◌, refl, sym, ap, ◌∙◌, inl, inr, Bool, true, false, ◌&&◌, Option, none, some, String, List, [],
  ◌∷◌, arith, get_elem?, All, Bool-cases, Option-cases, ℕ, suc,
}
use mxl_k8s.Base.Texts.{same_text, same_text_iff}
use mxl_k8s.Agent.Redundancy.{FlowSet, output_of, is_output}

-- The output of the set is the flow in the domain.
abbrev pub IsOf : String → String → FlowSet → Type 0
IsOf domain id s = (s.flow_id ≡ id) × (s.domain ≡ domain)

-- What the answer says of the lookup.
abbrev pub IsTold : String → String → Option (List FlowSet) → Option Bool → Type 0
IsTold domain id list none = list ≡ none
IsTold domain id list (some true) =
    (sets : List FlowSet) × (list ≡ some sets)
    × (i : ℕ) × (s : FlowSet) × (get_elem? sets i ≡ some s)
    × IsOf domain id s
IsTold domain id list (some false) =
    (sets : List FlowSet) × (list ≡ some sets) × All (λ s. IsOf domain id s → ⊥) sets

module _ (domain id : String) where
  matched :
      (s : FlowSet)
      → (same_text s.flow_id id && same_text s.domain domain) ≡ true
      → IsOf domain id s
  matched s q =
      ((same_text_iff _ _).0 (ground (arith, q)), (same_text_iff _ _).0 (ground (arith, q)))

  unmatched :
      (s : FlowSet)
      → (same_text s.flow_id id && same_text s.domain domain) ≡ false
      → IsOf domain id s
      → ⊥
  unmatched s q (e, e') =
      absurd
        (ground (arith, q, (same_text_iff s.flow_id id).1 e, (same_text_iff s.domain domain).1 e'))

  output_of-some :
      (sets : List FlowSet) (s : FlowSet)
      → output_of domain id sets ≡ some s
      → (i : ℕ) × (get_elem? sets i ≡ some s) × IsOf domain id s
  unfolding output_of
  output_of-some [] s e = absurd (ground (arith, e))
  output_of-some (x ∷ sets) s e =
      elim (Bool-cases (same_text x.flow_id id && same_text x.domain domain)) [
        | inl q ↦
            let same : x ≡ s = ground (arith, e, q) in
            let (f, d) = matched x q in
            (
              0,
              ap some same,
              (ap (λ y. y.flow_id) (sym same) ∙ f, ap (λ y. y.domain) (sym same) ∙ d),
            )
        | inr q ↦ let (i, g, k) = output_of-some sets s (ground (arith, e, q)) in (suc i, g, k)
      ]

  output_of-none :
      (sets : List FlowSet) → output_of domain id sets ≡ none → All (λ s. IsOf domain id s → ⊥) sets
  unfolding output_of
  output_of-none [] e = tt
  output_of-none (x ∷ sets) e =
      elim (Bool-cases (same_text x.flow_id id && same_text x.domain domain)) [
        | inl q ↦ absurd (ground (arith, e, q))
        | inr q ↦ (unmatched x q, output_of-none sets (ground (arith, e, q)))
      ]

-- `IsOutput` answers yes where a set that the server lists has the flow in the domain as its
-- output, and no where none of them has. Where the lookup fails it answers an error, and only
-- there.
pub is_output-IsTold :
    (domain id : String) (list : Option (List FlowSet))
    → IsTold domain id list (is_output domain id list)
unfolding is_output
is_output-IsTold domain id none = refl
is_output-IsTold domain id (some sets) = elim (Option-cases (output_of domain id sets)) [
  | inl e ↦ rw (is_output, e) (sets, refl, output_of-none domain id sets e)
  | inr (s, e) ↦
      let (i, g, k) = output_of-some domain id sets s e in
      rw (is_output, e) (sets, refl, i, s, g, k)
]
