-- ===== src/Prelude/Int.antt =====
-- Signed integers by their constructors, and differences of unsigned words.
use Prim.Native.Nat.{ℕ, ◌+◌, ◌-◌, ◌%◌, ◌^◌, ◌≤◌, ◌<◌}
use mathlib.Core.Path.{◌≡◌}
use mathlib.Core.Logic.{◌↔◌}
use mathlib.Core.Bool.{Bool, true, false}
use native.Mathlib.Omega.{arith}
use sf4_rollback_gui.Prelude.Tests.{◌==◌, ltb, leb, if◌then◌else◌}

-- `negsuc n` is -(n + 1).
pub data ℤ : Type 0 where
  pos : ℕ → ℤ
  negsuc : ℕ → ℤ

abbrev pub minus_one : ℤ
minus_one = negsuc 0

abbrev pub is_minus_one : ℤ → Bool
is_minus_one (pos n) = false
is_minus_one (negsuc n) = n == 0

abbrev pub int_eqb : ℤ → ℤ → Bool
int_eqb (pos m) (pos n) = m == n
int_eqb (pos m) (negsuc n) = false
int_eqb (negsuc m) (pos n) = false
int_eqb (negsuc m) (negsuc n) = m == n

pub int_eqb_iff : (a b : ℤ) → (int_eqb a b ≡ true) ↔ (a ≡ b)
int_eqb_iff a b = ground arith

abbrev pub int_ltb : ℤ → ℤ → Bool
int_ltb (pos m) (pos n) = ltb m n
int_ltb (pos m) (negsuc n) = false
int_ltb (negsuc m) (pos n) = true
int_ltb (negsuc m) (negsuc n) = ltb n m

-- The difference of two numbers, which may be negative.
abbrev pub nat_diff : ℕ → ℕ → ℤ
nat_diff a b = if leb b a then pos (a - b) else negsuc (b - a - 1)

-- `a - b` without wrap-around.
abbrev pub int_sub : ℤ → ℤ → ℤ
int_sub (pos a) (pos b) = nat_diff a b
int_sub (pos a) (negsuc b) = pos (a + b + 1)
int_sub (negsuc a) (pos b) = negsuc (a + b)
int_sub (negsuc a) (negsuc b) = nat_diff b a

-- Numbers below 2 ^ 64, and `a - b` on uint64_t.
abbrev pub u64_mod : ℕ
u64_mod = 2 ^ 64

unfoldable pub sub64 : ℕ → ℕ → ℕ
sub64 a b = (a + u64_mod - b) % u64_mod

-- No borrow: the difference of the numbers.
pub sub64-eq_of_le : (a b : ℕ) → b ≤ a → a < u64_mod → sub64 a b ≡ a - b
unfolding sub64
sub64-eq_of_le a b h k = omega arith

pub sub64-lt : (a b : ℕ) → sub64 a b < u64_mod
unfolding sub64
sub64-lt a b = omega arith
