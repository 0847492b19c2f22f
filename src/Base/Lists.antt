-- ===== src/Base/Lists.antt =====
-- Lists measured and indexed by native numbers, under the library's names.
use Prim.Native.Nat.{ℕ, zero, suc, ◌+◌, ◌<◌}
use mathlib.Core.Path.{◌≡◌, refl, ap, subst}
use mathlib.Core.Logic.{◌≢◌, ◌↔◌}
use mathlib.Core.List.{List, [], ◌∷◌, ◌++◌}
use mathlib.Core.Option.{Option, none, some}
use mathlib.Core.Bool.{Bool, true, false, ◌&&◌}
use mxl_k8s.Base.Tests.{◌==◌, ==_iff}
use native.Mathlib.Omega.{arith}

module _ {ℓ} {A : Type ℓ} where
  abbrev pub length : List A → ℕ
  length [] = 0
  length (x ∷ xs) = suc (length xs)

  abbrev pub get_elem? : List A → ℕ → Option A
  get_elem? [] i = none
  get_elem? (x ∷ xs) zero = some x
  get_elem? (x ∷ xs) (suc i) = get_elem? xs i

  -- A write out of bounds changes nothing.
  abbrev pub set : List A → ℕ → A → List A
  set [] i v = []
  set (x ∷ xs) zero v = v ∷ xs
  set (x ∷ xs) (suc i) v = x ∷ set xs i v

  abbrev pub replicate : ℕ → A → List A
  replicate zero a = []
  replicate (suc n) a = a ∷ replicate n a

  pub length-append : (xs ys : List A) → length (xs ++ ys) ≡ length xs + length ys
  length-append [] ys = omega arith
  length-append (x ∷ xs) ys = omega (arith, length-append xs ys)

  pub length-replicate : (n : ℕ) (a : A) → length (replicate n a) ≡ n
  length-replicate zero a = refl
  length-replicate (suc n) a = ap suc (length-replicate n a)

  pub length-set : (xs : List A) (i : ℕ) (v : A) → length (set xs i v) ≡ length xs
  length-set [] i v = refl
  length-set (x ∷ xs) zero v = refl
  length-set (x ∷ xs) (suc i) v = ap suc (length-set xs i v)

module _ {ℓ} {A : Type ℓ} where
  pub get_elem?-set_self :
      (xs : List A) (i : ℕ) (v : A) → i < length xs → get_elem? (set xs i v) i ≡ some v
  get_elem?-set_self [] i v h = elim h [ ]
  get_elem?-set_self (x ∷ xs) zero v h = refl
  get_elem?-set_self (x ∷ xs) (suc i) v h = get_elem?-set_self xs i v (omega arith)

  pub get_elem?-set_ne :
      (xs : List A) {i j : ℕ} (v : A) → i ≢ j → get_elem? (set xs i v) j ≡ get_elem? xs j
  get_elem?-set_ne [] v h = refl
  get_elem?-set_ne (x ∷ xs) {i = zero} {j = zero} v h = absurd (h refl)
  get_elem?-set_ne (x ∷ xs) {i = zero} {j = suc j} v h = refl
  get_elem?-set_ne (x ∷ xs) {i = suc i} {j = zero} v h = refl
  get_elem?-set_ne (x ∷ xs) {i = suc i} {j = suc j} v h = get_elem?-set_ne xs v (λ e. h (ap suc e))

  -- A place within the bounds holds a value, and a place that holds one is within them.
  pub get_elem?_of_lt : (xs : List A) (i : ℕ) → i < length xs → (a : A) × (get_elem? xs i ≡ some a)
  get_elem?_of_lt [] i h = elim h [ ]
  get_elem?_of_lt (x ∷ xs) zero h = (x, refl)
  get_elem?_of_lt (x ∷ xs) (suc i) h = get_elem?_of_lt xs i (omega arith)

  pub lt_of_get_elem? : (xs : List A) (i : ℕ) {a : A} → get_elem? xs i ≡ some a → i < length xs
  lt_of_get_elem? [] i h = ground arith
  lt_of_get_elem? (x ∷ xs) zero h = omega arith
  lt_of_get_elem? (x ∷ xs) (suc i) h = omega (arith, lt_of_get_elem? xs i h)

  -- Writing what a place holds changes nothing.
  pub set_same : (xs : List A) (i : ℕ) {a : A} → get_elem? xs i ≡ some a → set xs i a ≡ xs
  set_same [] i h = refl
  set_same (x ∷ xs) zero h = ground arith
  set_same (x ∷ xs) (suc i) h = ap (◌∷◌ x) (set_same xs i h)

-- Predicates by recursion: of every element, and of the element at a place.
module _ {ℓ} {A : Type ℓ} where
  abbrev pub All : (A → Type 0) → List A → Type 0
  All P [] = Unit
  All P (x ∷ xs) = P x × All P xs

  abbrev pub At : (A → Type 0) → List A → ℕ → Type 0
  At P [] i = ⊥
  At P (x ∷ xs) zero = P x
  At P (x ∷ xs) (suc i) = At P xs i

  pub All-get_elem? :
      (P : A → Type 0) (xs : List A) (i : ℕ) {a : A} → All P xs → get_elem? xs i ≡ some a → P a
  All-get_elem? P [] i h e = absurd (ground arith)
  All-get_elem? P (x ∷ xs) zero h e = subst P (ground arith) h.0
  All-get_elem? P (x ∷ xs) (suc i) h e = All-get_elem? P xs i h.1 e

  pub All-set : (P : A → Type 0) (xs : List A) (i : ℕ) (a : A) → All P xs → P a → All P (set xs i a)
  All-set P [] i a h p = tt
  All-set P (x ∷ xs) zero a h p = (p, h.1)
  All-set P (x ∷ xs) (suc i) a h p = (h.0, All-set P xs i a h.1 p)

  pub All-replicate : (P : A → Type 0) (n : ℕ) (a : A) → P a → All P (replicate n a)
  All-replicate P zero a p = tt
  All-replicate P (suc n) a p = (p, All-replicate P n a p)

  pub lt_of_At : (P : A → Type 0) (xs : List A) (i : ℕ) → At P xs i → i < length xs
  lt_of_At P [] i h = absurd h
  lt_of_At P (x ∷ xs) zero h = omega arith
  lt_of_At P (x ∷ xs) (suc i) h = omega (arith, lt_of_At P xs i h)

  pub At-get_elem? :
      (P : A → Type 0) (xs : List A) (i : ℕ) → At P xs i → (a : A) × (get_elem? xs i ≡ some a) × P a
  At-get_elem? P [] i h = absurd h
  At-get_elem? P (x ∷ xs) zero h = (x, refl, h)
  At-get_elem? P (x ∷ xs) (suc i) h = At-get_elem? P xs i h

module _ {ℓ} {A : Type ℓ} where
  pub At-of_get_elem? :
      (P : A → Type 0) (xs : List A) (i : ℕ) {a : A} → get_elem? xs i ≡ some a → P a → At P xs i
  At-of_get_elem? P [] i e p = absurd (ground arith)
  At-of_get_elem? P (x ∷ xs) zero e p = subst P (ground arith) p
  At-of_get_elem? P (x ∷ xs) (suc i) e p = At-of_get_elem? P xs i e p

module _ {ℓ} {A : Type ℓ} (P Q : A → Type 0) (f : (a : A) → P a → Q a) where
  pub All-map : (xs : List A) → All P xs → All Q xs
  All-map [] h = tt
  All-map (x ∷ xs) h = (f x h.0, All-map xs h.1)

  pub At-map : (xs : List A) (i : ℕ) → At P xs i → At Q xs i
  At-map [] i h = absurd h
  At-map (x ∷ xs) zero h = f x h
  At-map (x ∷ xs) (suc i) h = At-map xs i h

-- Equality of lists of numbers, such as names as bytes.
abbrev pub same_bytes : List ℕ → List ℕ → Bool
same_bytes [] [] = true
same_bytes [] (c ∷ t) = false
same_bytes (b ∷ s) [] = false
same_bytes (b ∷ s) (c ∷ t) = let rest = same_bytes s t in (b == c) && rest

pub same_bytes_iff : (s t : List ℕ) → (same_bytes s t ≡ true) ↔ (s ≡ t)
same_bytes_iff [] [] = (λ q. refl, λ e. refl)
same_bytes_iff [] (c ∷ t) = (λ q. absurd (ground (arith, q)), λ e. absurd (ground (arith, e)))
same_bytes_iff (b ∷ s) [] = (λ q. absurd (ground (arith, q)), λ e. absurd (ground (arith, e)))
same_bytes_iff (b ∷ s) (c ∷ t) =
    let (f, g) = same_bytes_iff s t in
    (
      λ q. ap2 (ground (arith, q)) (f (ground (arith, q))),
      λ e. ground (arith, e, g (ground (arith, e)), (==_iff b c).1 (ground (arith, e))),
    )
  where
    ap2 : b ≡ c → s ≡ t → b ∷ s ≡ c ∷ t
    ap2 e e' = rw (e, e') refl
