-- ===== src/Merge/Engine/Due.antt =====
-- When the engine passes next, and how far `Retire` then looks.
use mathlib.Core.Path.{subst}
use native.Mathlib.Decide.{dec_lt}
use mxl_k8s.Base.{
  sym, ap, ◌∙◌, ltb→lt, ℕ, ◌+◌, ◌-◌, ◌^◌, ◌≤◌, ◌<◌, ◌≡◌, refl, ◌⊎◌, inl, inr, true, false, arith,
  ltb, Bool-cases,
}
use mxl_k8s.Base.Words.{u64, sub_u64}
use mxl_k8s.Merge.Engine.{retire_due}

-- What the code relies on of libmxl: the index of a time is the nearest one, and index 0 is at
-- time 0.
pub record IsNearest (index_of time_of : ℕ → ℕ) (t : ℕ) : Type 0 where
  pub origin : time_of 0 ≡ 0
  pub after : t < time_of (index_of t + 1)
  pub before : (index_of t ≡ 0) ⊎ (time_of (index_of t - 1) ≤ t)
  pub range :
      (time_of (index_of t + 1) < 2 ^ 63) × (time_of (index_of t) < 2 ^ 63) × (index_of t < 2 ^ 63)

abbrev IsDue : (ℕ → ℕ) → ℕ → ℕ → ℕ × ℕ → Type 0
IsDue time_of now guard (due, next) =
    (time_of due ≤ now + guard)
    × (now + guard < time_of (due + 1))
    × (0 < next)
    × (now + next + guard ≡ time_of (due + 1))

module _ (index_of time_of : ℕ → ℕ) (now guard : ℕ) (fits : now + guard < 2 ^ 63) where
  same_time : u64 (now + guard) ≡ now + guard
  same_time = omega arith

  due_before :
      ltb (now + guard) (time_of (index_of (now + guard))) ≡ true
      → 0 < index_of (now + guard)
      → index_of (now + guard) < 2 ^ 63
      → time_of (index_of (now + guard)) < 2 ^ 63
      → retire_due index_of time_of now guard
        ≡ (index_of (now + guard) - 1, time_of (index_of (now + guard)) - (now + guard))
  unfolding retire_due
  due_before q some_index low early =
      let back : sub_u64 (index_of (now + guard)) 1 ≡ index_of (now + guard) - 1 = omega arith in
      let there : u64 (index_of (now + guard) - 1 + 1) ≡ index_of (now + guard) = omega arith in
      let left : sub_u64 (time_of (index_of (now + guard))) (now + guard)
          ≡ time_of (index_of (now + guard)) - (now + guard) =
        omega (arith, ltb→lt _ _ q) in
      rw (retire_due, same_time, q, back, there, left) refl

  due_here :
      ltb (now + guard) (time_of (index_of (now + guard))) ≡ false
      → index_of (now + guard) < 2 ^ 63
      → time_of (index_of (now + guard) + 1) < 2 ^ 63
      → now + guard < time_of (index_of (now + guard) + 1)
      → retire_due index_of time_of now guard
        ≡ (index_of (now + guard), time_of (index_of (now + guard) + 1) - (now + guard))
  unfolding retire_due
  due_here q low early after =
      let there : u64 (index_of (now + guard) + 1) ≡ index_of (now + guard) + 1 = omega arith in
      let left : sub_u64 (time_of (index_of (now + guard) + 1)) (now + guard)
          ≡ time_of (index_of (now + guard) + 1) - (now + guard) =
        omega arith in
      rw (retire_due, same_time, q, there, left) refl

-- Where libmxl rounds a time to the nearest index and no time is at 2^63 or more, the index due is
-- the one whose period holds the time `guard` from now, and the next pass is `guard` before the
-- boundary after it, and later than now.
pub retire_due-IsDue :
    (index_of time_of : ℕ → ℕ) (now guard : ℕ)
    → now + guard < 2 ^ 63
    → IsNearest index_of time_of (now + guard)
    → (time_of (retire_due index_of time_of now guard).0 ≤ now + guard)
      × (now + guard < time_of ((retire_due index_of time_of now guard).0 + 1))
      × (0 < (retire_due index_of time_of now guard).1)
      × (now + (retire_due index_of time_of now guard).1 + guard
          ≡ time_of ((retire_due index_of time_of now guard).0 + 1))
retire_due-IsDue index_of time_of now guard fits h =
    let n = index_of (now + guard) in
    elim (Bool-cases (ltb (now + guard) (time_of n))) [
      | inr q ↦
          subst (IsDue time_of now guard)
            (sym (due_here index_of time_of now guard fits q h.range.2 h.range.0 h.after))
            (ground (arith, q), h.after, omega (arith, h.after), omega (arith, h.after))
      | inl q ↦ elim h.before [
        | inl z ↦
            let start : time_of n ≡ 0 = ap time_of z ∙ h.origin in
            absurd (omega (arith, ltb→lt _ _ q))
        | inr b ↦ elim (dec_lt 0 n) [
          | no z ↦
              let start : time_of n ≡ 0 = ap time_of (omega arith) ∙ h.origin in
              absurd (omega (arith, ltb→lt _ _ q))
          | yes p ↦
              let up : n - 1 + 1 ≡ n = omega arith in
              subst (IsDue time_of now guard)
                (sym (due_before index_of time_of now guard fits q p h.range.2 h.range.1))
                (
                  b,
                  omega (arith, ap time_of up, ltb→lt _ _ q),
                  omega (arith, ltb→lt _ _ q),
                  omega (arith, ap time_of up, ltb→lt _ _ q),
                )
        ]
      ]
    ]
