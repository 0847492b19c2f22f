-- ===== src/Api/Names/Mirrors.antt =====
-- `MirrorNameFor` of api/v1alpha1/mirror.go tells mirrors apart.
use mathlib.Core.List.{map-append}
use mxl_k8s.Base.{
  ℕ, suc, ◌≡◌, ◌↔◌, refl, sym, ap, ◌∙◌, inl, inr, true, [], ◌∷◌, ◌++◌, map, arith, length, All,
  ◌==◌, Bool-cases, length-append,
}
use mxl_k8s.Api.Names.{
  Bytes, FlowRef, dash, domain_separator, is_digit, is_flow_id, flow_name, in_mirror_name, clean,
  mirror_name_for,
}
use mxl_k8s.Api.Names.Parts.{IsMade, is_flow_id-IsMade}

-- Only what a mirror's name keeps: lower-case letters, digits and dashes.
abbrev pub IsLabel : Bytes → Type 0
IsLabel = All (λ c. in_mirror_name c ≡ true)

append_inj : (s s' t t' : Bytes) → length s ≡ length s' → s ++ t ≡ s' ++ t' → (s ≡ s') × (t ≡ t')
append_inj [] [] t t' l e = (refl, e)
append_inj [] (b ∷ s') t t' l e = absurd (omega arith)
append_inj (b ∷ s) [] t t' l e = absurd (omega arith)
append_inj (b ∷ s) (b' ∷ s') t t' l e =
    let (p, q) = append_inj s s' t t' (omega (arith, l)) (ground (arith, e)) in
    (ground (arith, e, p), q)

length-map : (f : ℕ → ℕ) (s : Bytes) → length (map f s) ≡ length s
length-map f [] = refl
length-map f (b ∷ s) = ap suc (length-map f s)

module _ (lower : ℕ → ℕ) (keeps : (c : ℕ) → in_mirror_name c ≡ true → lower c ≡ c) where
  map_kept : (s : Bytes) → IsLabel s → map (λ c. clean (lower c)) s ≡ s
  unfolding clean
  map_kept [] h = refl
  map_kept (b ∷ s) h = rw (keeps b h.0, h.0, map_kept s h.1) refl

  flow_name_inj :
      (d i i' : Bytes)
      → length i ≡ length i'
      → IsLabel i
      → IsLabel i'
      → (length (flow_name (record { domain = d; id = i }))
          ≡ length (flow_name (record { domain = d; id = i' })))
        × (map (λ c. clean (lower c)) (flow_name (record { domain = d; id = i }))
              ≡ map (λ c. clean (lower c)) (flow_name (record { domain = d; id = i' }))
            → i ≡ i')
  unfolding flow_name
  flow_name_inj d i i' l h h' = elim (Bool-cases (length d == 0)) [
    | inl q ↦ rw q (l, λ e. sym (map_kept i h) ∙ e ∙ map_kept i' h')
    | inr q ↦ rw q (
      omega (
        arith,
        length-append d (domain_separator ∷ i),
        length-append d (domain_separator ∷ i'),
        l,
      ),
      λ e.
          let f : ℕ → ℕ = λ c. clean (lower c) in
          let split =
            sym (map-append f d (domain_separator ∷ i))
            ∙ e
            ∙ map-append f d (domain_separator ∷ i') in
          let tails = (append_inj (map f d) (map f d) _ _ refl split).1 in
          sym (map_kept i h)
          ∙ (append_inj (f domain_separator ∷ []) (f domain_separator ∷ []) _ _ refl tails).1
          ∙ map_kept i' h',
    )
  ]

  is_flow_id-IsLabel :
      (s : Bytes) → is_flow_id s ≡ true → IsMade (λ c. in_mirror_name c ≡ true) 36 s
  unfolding is_digit in_mirror_name
  is_flow_id-IsLabel =
      is_flow_id-IsMade (λ c. in_mirror_name c ≡ true) (λ b q. ground (arith, q)) refl

-- Where lower-casing keeps what a mirror's name keeps, the mirrors of two flows of one domain with
-- flow ids, to nodes named of lower-case letters, digits and dashes, have one name exactly when
-- flow and node are the same.
pub mirror_name_for_inj :
    (lower : ℕ → ℕ) (r r' : FlowRef) (node node' : Bytes)
    → ((c : ℕ) → in_mirror_name c ≡ true → lower c ≡ c)
    → r.domain ≡ r'.domain
    → is_flow_id r.id ≡ true
    → is_flow_id r'.id ≡ true
    → IsLabel node
    → IsLabel node'
    → (mirror_name_for lower r node ≡ mirror_name_for lower r' node') ↔ ((r ≡ r') × (node ≡ node'))
unfolding mirror_name_for
mirror_name_for_inj lower r r' node node' keeps d q q' n n' =
    let f : ℕ → ℕ = λ c. clean (lower c) in
    let (l, h) = is_flow_id-IsLabel lower keeps r.id q in
    let (l', h') = is_flow_id-IsLabel lower keeps r'.id q' in
    let moved : flow_name r' ≡ flow_name (record { domain = r.domain; id = r'.id }) =
      ap (λ x. flow_name (record { domain = x; id = r'.id })) (sym d) in
    let (same, ids) = flow_name_inj lower keeps r.domain r.id r'.id (l ∙ sym l') h h' in
    (
      λ e.
          let split =
            sym (map-append f (flow_name r) (dash ∷ dash ∷ node))
            ∙ e
            ∙ map-append f (flow_name r') (dash ∷ dash ∷ node') in
          let lengths : length (map f (flow_name r)) ≡ length (map f (flow_name r')) =
            length-map f (flow_name r)
            ∙ same
            ∙ sym (ap length moved)
            ∙ sym (length-map f (flow_name r')) in
          let (heads, tails) =
            append_inj (map f (flow_name r)) (map f (flow_name r')) _ _ lengths split in
          let id : r.id ≡ r'.id = ids (heads ∙ ap (map f) moved) in
          let rests = (append_inj (f dash ∷ f dash ∷ []) (f dash ∷ f dash ∷ []) _ _ refl tails).1 in
          (
            ground (arith, d, id),
            sym (map_kept lower keeps node n) ∙ rests ∙ map_kept lower keeps node' n',
          ),
      λ e. ap (λ x. mirror_name_for lower x node) e.0 ∙ ap (mirror_name_for lower r') e.1,
    )
