-- ===== src/Base/Int.antt =====
-- Go's signed integers as ℤ over the native numbers, with the wrap-around of `int` where the code
-- adds.
use Prim.Native.Nat.{ℕ, zero, suc, ◌+◌, ◌-◌, ◌*◌, ◌%◌, ◌^◌, ◌≤◌, ◌<◌}
use mathlib.Core.Bool.{Bool}
use native.Mathlib.Omega.{arith}
use ztre.Base.Tests.{ltb, leb, ◌==◌, if◌then◌else◌}

-- `negsuc n` is -(n + 1).
pub data ℤ : Type 0 where
  pos : ℕ → ℤ
  negsuc : ℕ → ℤ

abbrev pub pos_part : ℤ → ℕ
pos_part (pos n) = n
pos_part (negsuc n) = 0

abbrev pub neg_part : ℤ → ℕ
neg_part (pos n) = 0
neg_part (negsuc n) = suc n

infix 50 ◌≤ℤ◌ ◌<ℤ◌
abbrev pub ◌≤ℤ◌ : ℤ → ℤ → Type 0
a ≤ℤ b = pos_part a + neg_part b ≤ pos_part b + neg_part a

abbrev pub ◌<ℤ◌ : ℤ → ℤ → Type 0
a <ℤ b = pos_part a + neg_part b < pos_part b + neg_part a

abbrev pub ltb_ℤ : ℤ → ℤ → Bool
ltb_ℤ a b = ltb (pos_part a + neg_part b) (pos_part b + neg_part a)

abbrev pub leb_ℤ : ℤ → ℤ → Bool
leb_ℤ a b = leb (pos_part a + neg_part b) (pos_part b + neg_part a)

abbrev pub eqb_ℤ : ℤ → ℤ → Bool
eqb_ℤ a b = (pos_part a + neg_part b) == (pos_part b + neg_part a)

abbrev pub sub_ℕ : ℕ → ℕ → ℤ
sub_ℕ a b = if leb b a then pos (a - b) else negsuc (b - a - 1)

abbrev pub int64_max : ℕ
int64_max = 2 ^ 63 - 1

-- The range of a 64-bit `int`.
abbrev pub IsInt64 : ℤ → Type 0
IsInt64 (pos n) = n ≤ int64_max
IsInt64 (negsuc n) = n ≤ int64_max

-- `a + 1` on a 64-bit `int`: the largest value wraps round to the least.
unfoldable pub inc_int64 : ℤ → ℤ
inc_int64 (pos n) = if n == int64_max then negsuc int64_max else pos (n + 1)
inc_int64 (negsuc zero) = pos 0
inc_int64 (negsuc (suc n)) = negsuc n

-- Below the largest value the increment keeps the order.
pub inc_int64_mono : (a b : ℤ) → a ≤ℤ b → b <ℤ pos int64_max → inc_int64 a ≤ℤ inc_int64 b
unfolding inc_int64
inc_int64_mono (pos a) (pos b) h k = ground arith
inc_int64_mono (pos a) (negsuc zero) h k = ground arith
inc_int64_mono (pos a) (negsuc (suc b)) h k = ground arith
inc_int64_mono (negsuc zero) (pos b) h k = ground arith
inc_int64_mono (negsuc zero) (negsuc zero) h k = ground arith
inc_int64_mono (negsuc zero) (negsuc (suc b)) h k = ground arith
inc_int64_mono (negsuc (suc a)) (pos b) h k = ground arith
inc_int64_mono (negsuc (suc a)) (negsuc zero) h k = ground arith
inc_int64_mono (negsuc (suc a)) (negsuc (suc b)) h k = ground arith

-- The integer of a 64-bit pattern.
unfoldable pub to_int64 : ℕ → ℤ
to_int64 n = let r = n % 2 ^ 64 in if ltb r (2 ^ 63) then pos r else negsuc (2 ^ 64 - 1 - r)

-- `a * 2` on an int64.
unfoldable pub double_int64 : ℤ → ℤ
unfolding to_int64
double_int64 (pos n) = to_int64 (2 * n)
double_int64 (negsuc n) = to_int64 (2 ^ 64 - (2 * (n + 1)) % 2 ^ 64)
