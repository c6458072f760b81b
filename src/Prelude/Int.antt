-- ===== src/Prelude/Int.antt =====
-- Go's signed integers, over the native numbers.
use Prim.Native.Nat.{ℕ, zero, suc, ◌+◌, ◌-◌, ◌/◌, ◌^◌}
use mathlib.Core.Bool.{Bool, false}
use protohackers_go.Prelude.Tests.{nat_beq, ltb, leb, if◌then◌else◌}

-- `negsuc n` is -(n + 1).
pub data ℤ : Type 0 where
  pos : ℕ → ℤ
  negsuc : ℕ → ℤ

abbrev pub eq_int : ℤ → ℤ → Bool
eq_int (pos m) (pos n) = nat_beq m n
eq_int (negsuc m) (negsuc n) = nat_beq m n
eq_int (pos m) (negsuc n) = false
eq_int (negsuc m) (pos n) = false

-- -n.
abbrev pub neg : ℕ → ℤ
neg zero = pos 0
neg (suc n) = negsuc n

-- m - n.
infixl 6 ◌⊖◌
unfoldable pub ◌⊖◌ : ℕ → ℕ → ℤ
m ⊖ n = if leb n m then pos (m - n) else negsuc (n - m - 1)

infixl 6 ◌+ℤ◌
unfoldable pub ◌+ℤ◌ : ℤ → ℤ → ℤ
unfolding ◌⊖◌
pos m +ℤ pos n = pos (m + n)
pos m +ℤ negsuc n = m ⊖ (n + 1)
negsuc m +ℤ pos n = n ⊖ (m + 1)
negsuc m +ℤ negsuc n = negsuc (m + n + 1)

-- Go's division by a positive number, which cuts off towards 0.
abbrev pub quot : ℤ → ℕ → ℤ
quot (pos n) k = pos (n / k)
quot (negsuc n) k = neg ((n + 1) / k)

-- The number that 32 bits stand for in two's complement.
unfoldable pub int32 : ℕ → ℤ
int32 v = if ltb v (2 ^ 31) then pos v else negsuc (2 ^ 32 - 1 - v)

-- The number that the 64 bits of an `int` stand for.
abbrev pub int64 : ℕ → ℤ
int64 v = if ltb v (2 ^ 63) then pos v else negsuc (2 ^ 64 - 1 - v)
