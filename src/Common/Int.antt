-- ===== src/Common/Int.antt =====
-- Signed integers over the native numbers, under the library's names. They stand for the C `int`
-- counters of the program, whose overflow is undefined there and which therefore never wrap.
use Prim.Native.Nat.{ℕ, zero, suc, ◌+◌, ◌≤◌}
use mathlib.Core.Path.{◌≡◌}
use mathlib.Core.Bool.{Bool, true, false}
use native.Mathlib.Omega.{arith}

-- `negsuc n` is -(n + 1).
pub data ℤ : Type 0 where
  pos : ℕ → ℤ
  negsuc : ℕ → ℤ

abbrev pub pos_part : ℤ → ℕ
pos_part (pos n) = n
pos_part (negsuc n) = 0

abbrev pub neg_part : ℤ → ℕ
neg_part (pos n) = 0
neg_part (negsuc n) = suc n

infix 50 ◌≤ℤ◌
abbrev pub ◌≤ℤ◌ : ℤ → ℤ → Type 0
a ≤ℤ b = pos_part a + neg_part b ≤ pos_part b + neg_part a

-- `x++` and `x--`.
unfoldable pub inc : ℤ → ℤ
inc (pos n) = pos (suc n)
inc (negsuc zero) = pos 0
inc (negsuc (suc n)) = negsuc n

unfoldable pub dec : ℤ → ℤ
dec (pos zero) = negsuc 0
dec (pos (suc n)) = pos n
dec (negsuc n) = negsuc (suc n)

-- `x > 0`.
unfoldable pub is_positive : ℤ → Bool
is_positive (pos zero) = false
is_positive (pos (suc n)) = true
is_positive (negsuc n) = false

pub inc_parts : (a : ℤ) → pos_part (inc a) + neg_part a ≡ suc (pos_part a + neg_part (inc a))
unfolding inc
inc_parts (pos n) = omega arith
inc_parts (negsuc zero) = omega arith
inc_parts (negsuc (suc n)) = omega arith

pub dec_parts : (a : ℤ) → suc (pos_part (dec a) + neg_part a) ≡ pos_part a + neg_part (dec a)
unfolding dec
dec_parts (pos zero) = omega arith
dec_parts (pos (suc n)) = omega arith
dec_parts (negsuc n) = omega arith

-- An integer that is at least a positive number is positive.
pub is_positive_of_le : (a : ℤ) (n : ℕ) → pos (suc n) ≤ℤ a → is_positive a ≡ true
unfolding is_positive
is_positive_of_le (pos zero) n h = absurd (omega arith)
is_positive_of_le (pos (suc m)) n h = ground arith
is_positive_of_le (negsuc m) n h = absurd (omega arith)
