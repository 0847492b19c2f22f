-- ===== src/Base/Words.antt =====
-- Go's machine integers, its times and its durations. A uint64 is a number below 2^64, an int64 an
-- integer; both wrap. A time is its nanoseconds since the zero Time, a duration an int64 of them.
use mxl_k8s.Base.Tests.{ltb, leb, if◌then◌else◌}
use mxl_k8s.Base.Int.{ℤ, pos, negsuc, ◌+ℤ◌, ◌-ℤ◌, ◌*ℤ◌}
use mathlib.Core.Path.{◌≡◌}
use native.Mathlib.Omega.{arith}
use Prim.Native.Nat.{ℕ, ◌+◌, ◌-◌, ◌%◌, ◌^◌, ◌≤◌, min}

abbrev pub u64 : ℕ → ℕ
u64 n = n % 2 ^ 64

-- a - b on uint64
abbrev pub sub_u64 : ℕ → ℕ → ℕ
sub_u64 a b = (a + 2 ^ 64 - b) % 2 ^ 64

abbrev pub max_i64 : ℕ
max_i64 = 2 ^ 63 - 1

-- the int64 that a bit pattern stands for
abbrev pub of_bits : ℕ → ℤ
of_bits u = if ltb u (2 ^ 63) then pos u else negsuc (2 ^ 64 - 1 - u)

-- an integer as int64
abbrev pub i64 : ℤ → ℤ
i64 (pos n) = of_bits (n % 2 ^ 64)
i64 (negsuc n) = of_bits (2 ^ 64 - 1 - n % 2 ^ 64)

abbrev pub InI64 : ℤ → Type 0
InI64 (pos n) = n ≤ max_i64
InI64 (negsuc n) = n ≤ max_i64

-- int64 arithmetic
unfoldable pub add_i64 : ℤ → ℤ → ℤ
add_i64 a b = i64 (a +ℤ b)

unfoldable pub sub_i64 : ℤ → ℤ → ℤ
sub_i64 a b = i64 (a -ℤ b)

unfoldable pub mul_i64 : ℤ → ℤ → ℤ
mul_i64 a b = i64 (a *ℤ b)

-- An integer in the range of int64 is itself.
pub i64_same : (a : ℤ) → InI64 a → i64 a ≡ a
i64_same (pos n) h = ground arith
i64_same (negsuc n) h = ground arith

pub add_i64_same : (a b : ℤ) → InI64 (a +ℤ b) → add_i64 a b ≡ a +ℤ b
unfolding add_i64
add_i64_same a b h = i64_same (a +ℤ b) h

pub sub_i64_same : (a b : ℤ) → InI64 (a -ℤ b) → sub_i64 a b ≡ a -ℤ b
unfolding sub_i64
sub_i64_same a b h = i64_same (a -ℤ b) h

-- `time.Time.Sub`, which saturates at the least and the greatest duration
unfoldable pub sub_time : ℕ → ℕ → ℤ
sub_time t u = if leb u t then pos (min (t - u) max_i64) else negsuc (min (u - t - 1) max_i64)

abbrev pub millisecond : ℕ
millisecond = 1000000

abbrev pub second : ℕ
second = 1000000000
