-- ===== src/Placement/Planner/Limits.antt =====
-- The headroom of a pair keeps every limit on it: the capacities of its interfaces, and the budgets
-- that they draw on.
use mxl_k8s.Base.{
  ℕ, ◌*◌, ◌/◌, ◌≤◌, ◌<◌, ◌^◌, ◌≡◌, refl, ap, ◌∙◌, inl, inr, ◌||◌, Option, none, some, List, [], ◌∷◌,
  arith, All, Bool-cases,
}
use mathlib.Core.Path.{subst}
use mxl_k8s.Base.Int.{ℤ, pos, negsuc, ◌≤ℤ◌, ◌<ℤ◌, ◌+ℤ◌, ◌-ℤ◌, ◌*ℤ◌, leb_ℤ, min_ℤ}
use mxl_k8s.Base.Words.{i64, InI64, sub_i64, sub_i64_same, mul_i64, i64_same}
use mxl_k8s.Placement.Node.{Budget}
use mxl_k8s.Placement.Planner.{plannable, room, budget_room}

-- A rate that no sum of two of them takes out of int64.
abbrev pub IsRate : ℤ → Type 0
IsRate a = (pos 0 ≤ℤ a) × (a ≤ℤ pos (2 ^ 61))

-- A limit, where it is known, holds what is committed and the demand.
abbrev pub Holds : ℤ → ℤ → ℤ → ℤ → Type 0
Holds demand capacity percent used =
    pos 0 <ℤ capacity → used +ℤ demand ≤ℤ plannable capacity percent

share_le : (q p : ℕ) → p < 100 → q * p ≤ q * 100
share_le q p h = grind arith

-- A share of a capacity, in int64, is itself.
share_same : (c p : ℕ) → c < 2 ^ 63 → p < 100 → mul_i64 (pos (c / 100)) (pos p) ≡ pos (c / 100 * p)
unfolding mul_i64
share_same c p fits l =
    let le : c / 100 * p ≤ c / 100 * 100 = share_le (c / 100) p l in
    let same : pos (c / 100) *ℤ pos p ≡ pos (c / 100 * p) = ground arith in
    ap i64 same ∙ i64_same (pos (c / 100 * p)) (omega arith)

plannable_bounds :
    (capacity percent : ℤ)
    → pos 0 <ℤ capacity
    → InI64 capacity
    → (pos 0 ≤ℤ plannable capacity percent) × (plannable capacity percent ≤ℤ capacity)
unfolding plannable
plannable_bounds (pos c) (pos p) l fits =
    elim (Bool-cases (leb_ℤ (pos p) (pos 0) || leb_ℤ (pos 100) (pos p))) [
      | inl q ↦ rw q (omega arith, omega arith)
      | inr q ↦
          let small : p < 100 = ground arith in
          let le : c / 100 * p ≤ c / 100 * 100 = share_le (c / 100) p small in
          rw (q, share_same c p (omega arith) small) (omega arith, omega arith)
    ]
plannable_bounds (pos c) (negsuc p) l fits = ground arith
plannable_bounds (negsuc c) percent l fits = absurd (ground arith)

left_over :
    (limit used demand : ℤ)
    → InI64 limit
    → pos 0 ≤ℤ limit
    → IsRate used
    → IsRate demand
    → pos 0 ≤ℤ sub_i64 (sub_i64 limit used) demand
    → used +ℤ demand ≤ℤ limit
left_over (negsuc x) used demand fits low u d h = absurd (ground arith)
left_over (pos x) (negsuc y) demand fits low u d h = absurd (ground arith)
left_over (pos x) (pos y) (negsuc z) fits low u d h = absurd (ground arith)
left_over (pos x) (pos y) (pos z) fits low u d h =
    let first : sub_i64 (pos x) (pos y) ≡ pos x -ℤ pos y =
      sub_i64_same (pos x) (pos y) (ground arith) in
    let second : sub_i64 (pos x -ℤ pos y) (pos z) ≡ (pos x -ℤ pos y) -ℤ pos z =
      sub_i64_same (pos x -ℤ pos y) (pos z) (ground arith) in
    let h' : pos 0 ≤ℤ (pos x -ℤ pos y) -ℤ pos z = rw (← second, ← first) h in ground arith

min_ℤ_both : (a b : ℤ) → pos 0 ≤ℤ min_ℤ a b → (pos 0 ≤ℤ a) × (pos 0 ≤ℤ b)
min_ℤ_both a b h = (ground arith, ground arith)

-- Headroom that is left after a limit was left before it, and the limit holds.
pub room-Holds :
    (demand capacity percent used headroom : ℤ)
    → InI64 capacity
    → IsRate used
    → IsRate demand
    → pos 0 ≤ℤ room demand capacity percent used headroom
    → (pos 0 ≤ℤ headroom) × Holds demand capacity percent used
unfolding room
room-Holds demand capacity percent used headroom fits u d h =
    elim (Bool-cases (leb_ℤ capacity (pos 0))) [
      | inl q ↦
          let h' : pos 0 ≤ℤ headroom = subst (λ x. pos 0 ≤ℤ x) (rw (room, q) refl) h in
          (h', λ l. absurd (ground arith))
      | inr q ↦
          let left = sub_i64 (sub_i64 (plannable capacity percent) used) demand in
          let h' : pos 0 ≤ℤ min_ℤ headroom left = subst (λ x. pos 0 ≤ℤ x) (rw (room, q) refl) h in
          let (a, b) = min_ℤ_both headroom left h' in
          (
            a,
            λ l.
                let (low, high) = plannable_bounds capacity percent l fits in
                left_over (plannable capacity percent) used demand
                  (in_range (plannable capacity percent) capacity low high fits) low u d b,
          )
    ]
  where
    in_range : (x c : ℤ) → pos 0 ≤ℤ x → x ≤ℤ c → InI64 c → InI64 x
    in_range (pos x) (pos c) p q r = omega arith
    in_range (pos x) (negsuc c) p q r = omega arith
    in_range (negsuc x) c p q r = absurd (ground arith)

-- Budgets: what they count is a rate, and their capacity an int64.
abbrev pub AreRates : (Budget → Option ℤ) → List Budget → Type 0
AreRates used = All (λ b. InI64 b.capacity × ((u : ℤ) → used b ≡ some u → IsRate u))

-- Every budget that counts the mirror holds what it has committed and the demand.
abbrev pub AllHold : (Budget → Option ℤ) → ℤ → ℤ → List Budget → Type 0
AllHold used demand percent =
    All (λ b. (u : ℤ) → used b ≡ some u → Holds demand b.capacity percent u)

pub budget_room-AllHold :
    (used : Budget → Option ℤ) (demand percent : ℤ) (bs : List Budget) (headroom : ℤ)
    → AreRates used bs
    → IsRate demand
    → pos 0 ≤ℤ budget_room used demand percent bs headroom
    → (pos 0 ≤ℤ headroom) × AllHold used demand percent bs
unfolding budget_room
budget_room-AllHold used demand percent [] headroom r d h = (h, tt)
budget_room-AllHold used demand percent (b ∷ bs) headroom r d h =
    let (h', rest) = budget_room-AllHold used demand percent bs (one (used b)) r.1 d h in
    let (h'', this) = first (used b) h' (λ u e. r.0.1 u e) in (h'', (this, rest))
  where
    one : Option ℤ → ℤ
    one o = elim o [ none ↦ headroom | some u ↦ room demand b.capacity percent u headroom ]

    first :
        (o : Option ℤ)
        → pos 0 ≤ℤ one o
        → ((u : ℤ) → o ≡ some u → IsRate u)
        → (pos 0 ≤ℤ headroom) × ((u : ℤ) → o ≡ some u → Holds demand b.capacity percent u)
    first none h' r' = (h', λ u e. absurd (ground arith))
    first (some v) h' r' =
        let (x, y) = room-Holds demand b.capacity percent v headroom r.0.0 (r' v refl) d h' in
        (x, λ u e. subst (Holds demand b.capacity percent) (ground arith) y)
