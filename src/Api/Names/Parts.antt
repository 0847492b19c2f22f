-- ===== src/Api/Names/Parts.antt =====
-- Parts of names: what a flow id is made of, prefixes, and the pieces of a split.
use mathlib.Core.Path.{subst}
use mxl_k8s.Base.{
  ℕ, zero, suc, ◌+◌, ◌<◌, ◌≡◌, ◌≢◌, refl, sym, ap, ◌∙◌, inl, inr, Bool, true, some, [], ◌∷◌, ◌++◌,
  arith, length, All, ◌==◌, ==_iff, get_elem?, Bool-cases,
}
use mxl_k8s.Api.Names.{
  Bytes, dash, domain_separator, is_digit, digits, dashed, ends, is_flow_id, cut_prefix, take, skip,
}

-- Bytes of one length, each of which is as `P` says.
abbrev pub IsMade : (ℕ → Type 0) → ℕ → Bytes → Type 0
IsMade P n s = (length s ≡ n) × All P s

-- Bytes of one length, none of them a separator.
abbrev pub IsPlain : ℕ → Bytes → Type 0
IsPlain = IsMade (λ b. b ≢ domain_separator)

module _ (P : ℕ → Type 0) (digit : (b : ℕ) → is_digit b ≡ true → P b) (dashes : P dash) where
  digits-IsMade :
      (k n : ℕ) (rest : Bytes → Bool)
      → ((t : Bytes) → rest t ≡ true → IsMade P k t)
      → (s : Bytes) → digits n rest s ≡ true
      → IsMade P (n + k) s
  unfolding digits
  digits-IsMade k zero rest h s q = let (l, p) = h s q in (omega (arith, l), p)
  digits-IsMade k (suc n) rest h [] q = absurd (ground (arith, q))
  digits-IsMade k (suc n) rest h (b ∷ s) q =
      let (l, p) = digits-IsMade k n rest h s (ground (arith, q)) in
      (omega (arith, l), (digit b (ground (arith, q)), p))

  dashed-IsMade :
      (k : ℕ) (rest : Bytes → Bool)
      → ((t : Bytes) → rest t ≡ true → IsMade P k t)
      → (s : Bytes) → dashed rest s ≡ true
      → IsMade P (suc k) s
  unfolding dashed
  dashed-IsMade k rest h [] q = absurd (ground (arith, q))
  dashed-IsMade k rest h (b ∷ s) q =
      let (l, p) = h s (ground (arith, q)) in
      let same : dash ≡ b = ground (arith, q) in (omega (arith, l), (subst P same dashes, p))

  ends-IsMade : (s : Bytes) → ends s ≡ true → IsMade P 0 s
  unfolding ends
  ends-IsMade [] q = (refl, tt)
  ends-IsMade (b ∷ s) q = absurd (ground (arith, q))

  pub is_flow_id-IsMade : (s : Bytes) → is_flow_id s ≡ true → IsMade P 36 s
  unfolding is_flow_id
  is_flow_id-IsMade s q =
      digits-IsMade 28 8 _
        (dashed-IsMade 27 _ (
          digits-IsMade 23 4 _ (
            dashed-IsMade 22 _ (
              digits-IsMade 18 4 _ (
                dashed-IsMade 17 _ (
                  digits-IsMade 13 4 _
                    (dashed-IsMade 12 _ (digits-IsMade 0 12 ends ends-IsMade))))))))
        s q

pub is_flow_id-IsPlain : (s : Bytes) → is_flow_id s ≡ true → IsPlain 36 s
unfolding is_digit
is_flow_id-IsPlain =
    is_flow_id-IsMade (λ b. b ≢ domain_separator) (λ b q e. ground (arith, q)) (λ e. ground arith)

pub cut_prefix-append : (p s : Bytes) → cut_prefix p (p ++ s) ≡ some s
unfolding cut_prefix
cut_prefix-append [] s = refl
cut_prefix-append (b ∷ p) s = rw ((==_iff b b).1 refl) (cut_prefix-append p s)

pub cut_prefix-some : (p s t : Bytes) → cut_prefix p s ≡ some t → s ≡ p ++ t
unfolding cut_prefix
cut_prefix-some [] s t e = ground (arith, e)
cut_prefix-some (b ∷ p) [] t e = absurd (ground (arith, e))
cut_prefix-some (b ∷ p) (c ∷ s) t e = elim (Bool-cases (b == c)) [
  | inl q ↦
      let same : b ≡ c = (==_iff b c).0 q in
      ap (◌∷◌ c) (cut_prefix-some p s t (ground (arith, e, q))) ∙ ap (λ x. x ∷ (p ++ t)) (sym same)
  | inr q ↦ absurd (ground (arith, e, q))
]

pub take-append : (s t : Bytes) (n : ℕ) → length s ≡ n → take n (s ++ t) ≡ s
unfolding take
take-append [] t zero e = refl
take-append [] t (suc n) e = absurd (omega arith)
take-append (b ∷ s) t zero e = absurd (omega arith)
take-append (b ∷ s) t (suc n) e = ap (◌∷◌ b) (take-append s t n (omega arith))

pub skip-append : (s t : Bytes) (b n : ℕ) → length s ≡ n → skip (suc n) (s ++ (b ∷ t)) ≡ t
unfolding skip
skip-append [] t b zero e = refl
skip-append [] t b (suc n) e = absurd (omega arith)
skip-append (c ∷ s) t b zero e = absurd (omega arith)
skip-append (c ∷ s) t b (suc n) e = skip-append s t b n (omega arith)

pub get_elem?-append : (s t : Bytes) (b n : ℕ) → length s ≡ n → get_elem? (s ++ (b ∷ t)) n ≡ some b
get_elem?-append [] t b zero e = refl
get_elem?-append [] t b (suc n) e = absurd (omega arith)
get_elem?-append (c ∷ s) t b zero e = absurd (omega arith)
get_elem?-append (c ∷ s) t b (suc n) e = get_elem?-append s t b n (omega arith)

-- The bytes are what stands before a byte, that byte, and what follows it.
pub take-skip :
    (s : Bytes) (n b : ℕ) → get_elem? s n ≡ some b → s ≡ take n s ++ (b ∷ skip (suc n) s)
unfolding take skip
take-skip [] n b e = absurd (ground (arith, e))
take-skip (c ∷ s) zero b e = ap (λ x. x ∷ s) (ground (arith, e))
take-skip (c ∷ s) (suc n) b e = ap (◌∷◌ c) (take-skip s n b e)

pub length-skip : (n : ℕ) (s : Bytes) → suc n < length s → 0 < length (skip (suc n) s)
unfolding skip
length-skip n [] h = absurd (omega arith)
length-skip zero (c ∷ s) h = omega arith
length-skip (suc n) (c ∷ s) h = length-skip n s (omega arith)
