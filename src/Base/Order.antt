-- ===== src/Base/Order.antt =====
-- Comparisons: three-way, lawful, lexicographic; and the least element of a list.
use Prim.Native.Nat.{ℕ, ◌+◌, compare, Ordering}
use Prim.Native.Char.{Char, code}
use Prim.Native.String.{String}
use Prim.Native.String as Text
use mathlib.Core.Path.{◌≡◌, refl, sym, ap, ◌∙◌, subst}
use mathlib.Core.Logic.{◌⊎◌, inl, inr}
use mathlib.Core.List.{List, [], ◌∷◌}
use mxl_k8s.Base.Int.{ℤ, pos_part, neg_part}
use mathlib.Core.Option.{some}
use Prim.Native.Nat.{zero, suc}
use mxl_k8s.Base.Lists.{All, get_elem?}
use native.Mathlib.Omega.{arith}

-- `cmp.Or` of two comparisons
abbrev pub or_else : Ordering → Ordering → Ordering
or_else Ordering.lt o = Ordering.lt
or_else Ordering.eq o = o
or_else Ordering.gt o = Ordering.gt

abbrev pub reversed : Ordering → Ordering
reversed Ordering.lt = Ordering.gt
reversed Ordering.eq = Ordering.eq
reversed Ordering.gt = Ordering.lt

abbrev pub NotGt : Ordering → Type 0
NotGt Ordering.lt = Unit
NotGt Ordering.eq = Unit
NotGt Ordering.gt = ⊥

-- A comparison whose two directions agree, and that is transitive.
pub record IsLawful {ℓ} {A : Type ℓ} (cmp : A → A → Ordering) : Type ℓ where
  pub turned : (a b : A) → cmp b a ≡ reversed (cmp a b)
  pub chained : (a b c : A) → NotGt (cmp a b) → NotGt (cmp b c) → NotGt (cmp a c)

abbrev pub compare_ℤ : ℤ → ℤ → Ordering
compare_ℤ a b = compare (pos_part a + neg_part b) (pos_part b + neg_part a)

pub compare-IsLawful : IsLawful compare
compare-IsLawful = record { turned = λ a b. ground arith; chained = λ a b c p q. ground arith }

pub compare_ℤ-IsLawful : IsLawful compare_ℤ
compare_ℤ-IsLawful = record { turned = λ a b. ground arith; chained = λ a b c p q. ground arith }

-- `cmp.Compare` on texts: by their bytes, in the order of their code points.
abbrev pub compare_text : String → String → Ordering
compare_text s t = Text.compare s t

-- Whatever decides first, the comparisons chain.
pub or_else-NotGt {ℓ} :
    {A : Type ℓ} {cmp : A → A → Ordering}
    → IsLawful cmp
    → (a b c : A) (ab bc ac : Ordering) → (NotGt ab → NotGt bc → NotGt ac)
    → NotGt (or_else (cmp a b) ab)
    → NotGt (or_else (cmp b c) bc)
    → NotGt (or_else (cmp a c) ac)
or_else-NotGt {cmp = cmp} h a b c ab bc ac k p q =
    chain (cmp a b) (cmp b c) (cmp a c) (cmp b a) (cmp c b) (cmp c a) ab bc ac (h.turned a b)
      (h.turned b c) (h.turned a c) (h.chained a b c) (h.chained b c a) (h.chained c a b) k p q
  where
    chain :
        (x y z x' y' z' ab bc ac : Ordering)
        → x' ≡ reversed x
        → y' ≡ reversed y
        → z' ≡ reversed z
        → (NotGt x → NotGt y → NotGt z)
        → (NotGt y → NotGt z' → NotGt x')
        → (NotGt z' → NotGt x → NotGt y')
        → (NotGt ab → NotGt bc → NotGt ac)
        → NotGt (or_else x ab)
        → NotGt (or_else y bc)
        → NotGt (or_else z ac)
    chain x y z x' y' z' ab bc ac p q r u v w k m n = ground arith

pub reversed-or_else :
    (o o' : Ordering) → reversed (or_else o o') ≡ or_else (reversed o) (reversed o')
reversed-or_else o o' = ground arith

-- A lawful comparison, and another where it finds no difference.
pub or_else-IsLawful {ℓ} :
    {A : Type ℓ} {cmp cmp' : A → A → Ordering}
    → IsLawful cmp
    → IsLawful cmp'
    → IsLawful (λ a b. or_else (cmp a b) (cmp' a b))
or_else-IsLawful {cmp = cmp} {cmp' = cmp'} h k = record {
  turned = λ a b. ground (arith, h.turned a b, k.turned a b);
  chained =
      λ a b c. or_else-NotGt {cmp = cmp} h a b c (cmp' a b) (cmp' b c) (cmp' a c) (k.chained a b c);
}

pub IsLawful-on {ℓ κ} :
    {A : Type ℓ} {B : Type κ} {cmp : B → B → Ordering} (key : A → B)
    → IsLawful cmp
    → IsLawful (λ a b. cmp (key a) (key b))
IsLawful-on key h = record {
  turned = λ a b. h.turned (key a) (key b);
  chained = λ a b c. h.chained (key a) (key b) (key c);
}

pub IsLawful-reversed {ℓ} :
    {A : Type ℓ} {cmp : A → A → Ordering} → IsLawful cmp → IsLawful (λ a b. cmp b a)
IsLawful-reversed {cmp = cmp} h = record {
  turned = λ a b. h.turned b a;
  chained = λ a b c p q. h.chained c b a q p;
}

abbrev pub compare_char : Char → Char → Ordering
compare_char c d = compare (code c) (code d)

compare_char-IsLawful : IsLawful compare_char
compare_char-IsLawful = IsLawful-on code compare-IsLawful

text_cons :
    (c d : Char) (s t : String)
    → compare_text (String.◌∷◌ c s) (String.◌∷◌ d t) ≡ or_else (compare_char c d) (compare_text s t)
text_cons c d s t = Text.compare.cons-cons c d s t ∙ same (compare_char c d) (compare_text s t)
  where
    same : (o o' : Ordering) → Text.then o o' ≡ or_else o o'
    same Ordering.lt o' = refl
    same Ordering.eq o' = refl
    same Ordering.gt o' = refl

text_turned : (s t : String) → compare_text t s ≡ reversed (compare_text s t)
text_turned String.[] String.[] = ap reversed (sym Text.compare.nil-nil)
text_turned String.[] (String.◌∷◌ d t) =
    Text.compare.cons-nil d t ∙ ap reversed (sym (Text.compare.nil-cons d t))
text_turned (String.◌∷◌ c s) String.[] =
    Text.compare.nil-cons c s ∙ ap reversed (sym (Text.compare.cons-nil c s))
text_turned (String.◌∷◌ c s) (String.◌∷◌ d t) =
    rw (text_cons d c t s, text_cons c d s t)
      (ground (arith, compare_char-IsLawful.turned c d, text_turned s t))

text_chained :
    (s t u : String)
    → NotGt (compare_text s t)
    → NotGt (compare_text t u)
    → NotGt (compare_text s u)
text_chained String.[] t String.[] p q = subst NotGt (sym Text.compare.nil-nil) tt
text_chained String.[] t (String.◌∷◌ e u) p q = subst NotGt (sym (Text.compare.nil-cons e u)) tt
text_chained (String.◌∷◌ c s) String.[] u p q = absurd (subst NotGt (Text.compare.cons-nil c s) p)
text_chained (String.◌∷◌ c s) (String.◌∷◌ d t) String.[] p q =
    absurd (subst NotGt (Text.compare.cons-nil d t) q)
text_chained (String.◌∷◌ c s) (String.◌∷◌ d t) (String.◌∷◌ e u) p q =
    subst NotGt (sym (text_cons c e s u)) (
      or_else-NotGt {cmp = compare_char} compare_char-IsLawful c d e (compare_text s t)
        (compare_text t u) (compare_text s u) (text_chained s t u)
        (subst NotGt (text_cons c d s t) p) (subst NotGt (text_cons d e t u) q))

pub compare_text-IsLawful : IsLawful compare_text
compare_text-IsLawful = record { turned = text_turned; chained = text_chained }

-- The first of the least elements of a list that starts with `x`.
unfoldable pub least {ℓ} : {A : Type ℓ} → (A → A → Ordering) → A → List A → A
least cmp x [] = x
least cmp x (y ∷ ys) = least cmp (elim (cmp y x) [ Ordering.lt ↦ y | _ ↦ x ]) ys

module _ {ℓ} {A : Type ℓ} {cmp : A → A → Ordering} (h : IsLawful cmp) where
  refl-NotGt : (a : A) → NotGt (cmp a a)
  refl-NotGt a = self (cmp a a) (h.turned a a)
    where
      self : (o : Ordering) → o ≡ reversed o → NotGt o
      self o e = ground arith

  better-NotGt :
      (x y : A)
      → NotGt (cmp (elim (cmp y x) [ Ordering.lt ↦ y | _ ↦ x ]) x)
        × NotGt (cmp (elim (cmp y x) [ Ordering.lt ↦ y | _ ↦ x ]) y)
  better-NotGt x y = by_order (cmp y x) refl
    where
      by_order :
          (o : Ordering)
          → cmp y x ≡ o
          → NotGt (cmp (elim o [ Ordering.lt ↦ y | _ ↦ x ]) x)
            × NotGt (cmp (elim o [ Ordering.lt ↦ y | _ ↦ x ]) y)
      by_order Ordering.lt e = (ground (arith, e), refl-NotGt y)
      by_order Ordering.eq e = (refl-NotGt x, ground (arith, e, h.turned y x))
      by_order Ordering.gt e = (refl-NotGt x, ground (arith, e, h.turned y x))

  -- The least element is not above any other, and is one of them.
  pub least-NotGt : (x : A) (ys : List A) → All (λ y. NotGt (cmp (least cmp x ys) y)) (x ∷ ys)
  unfolding least
  least-NotGt x [] = (refl-NotGt x, tt)
  least-NotGt x (y ∷ ys) =
      let z = elim (cmp y x) as (λ _. A) [ Ordering.lt ↦ y | _ ↦ x ] in
      let (first, rest) = least-NotGt z ys in
      let (a, b) = better-NotGt x y in (h.chained _ z x first a, (h.chained _ z y first b, rest))

pub least_mem {ℓ} :
    {A : Type ℓ} (cmp : A → A → Ordering) (x : A) (ys : List A)
    → (i : ℕ) × (get_elem? (x ∷ ys) i ≡ some (least cmp x ys))
unfolding least
least_mem cmp x [] = (0, refl)
least_mem {A} cmp x (y ∷ ys) =
    place (cmp y x) (least_mem cmp (elim (cmp y x) [ Ordering.lt ↦ y | _ ↦ x ]) ys)
  where
    later :
        (z : A) (i : ℕ)
        → (x ≡ z) ⊎ (y ≡ z)
        → get_elem? (z ∷ ys) i ≡ some (least cmp z ys)
        → (j : ℕ) × (get_elem? (x ∷ y ∷ ys) j ≡ some (least cmp z ys))
    later z zero (inl e) h = (0, ap some e ∙ h)
    later z zero (inr e) h = (1, ap some e ∙ h)
    later z (suc i) e h = (suc (suc i), h)

    place :
        (o : Ordering)
        → (i : ℕ) × (get_elem? ((elim o as (λ _. A) [ Ordering.lt ↦ y | _ ↦ x ]) ∷ ys) i
            ≡ some (least cmp (elim o [ Ordering.lt ↦ y | _ ↦ x ]) ys))
        → (j : ℕ) × (get_elem? (x ∷ y ∷ ys) j
            ≡ some (least cmp (elim o [ Ordering.lt ↦ y | _ ↦ x ]) ys))
    place Ordering.lt (i, h) = later y i (inr refl) h
    place Ordering.eq (i, h) = later x i (inl refl) h
    place Ordering.gt (i, h) = later x i (inl refl) h
