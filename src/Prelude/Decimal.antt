-- ===== src/Prelude/Decimal.antt =====
-- `std::to_string` of an unsigned number, and hexadecimal by `%016llx`.
use Prim.Native.Nat.{ℕ, zero, suc, ◌+◌, ◌-◌, ◌*◌, ◌/◌, ◌%◌, ◌≤◌, ◌<◌}
use mathlib.Core.Path.{◌≡◌, sym, ap, ◌∙◌}
use mathlib.Core.List.{[], ◌∷◌}
use native.Mathlib.Omega.{arith}
use mathlib.Core.Logic.{inl, inr}
use sf4_rollback_gui.Prelude.Tests.{ltb, if◌then◌else◌, Bool-cases}
use sf4_rollback_gui.Prelude.Lists.{All, length}
use sf4_rollback_gui.Prelude.Text.{Str}

-- The digits of `n` in front of `acc`; a number has fewer digits than its value plus one.
decimal : ℕ → ℕ → Str → Str
decimal zero n acc = acc
decimal (suc fuel) n acc =
    let rest = decimal fuel (n / 10) ((48 + n % 10) ∷ acc) in
    if ltb n 10 then (48 + n) ∷ acc else rest

unfoldable pub to_string : ℕ → Str
unfolding decimal
to_string n = decimal (suc n) n []

-- The number that a string of digits denotes, read on from `v`.
unfoldable pub value : ℕ → Str → ℕ
value v [] = v
value v (c ∷ s) = value (v * 10 + (c - 48)) s

value-decimal : (fuel n : ℕ) (acc : Str) → n < fuel → value 0 (decimal fuel n acc) ≡ value n acc
unfolding decimal value
value-decimal zero n acc h = absurd (omega arith)
value-decimal (suc fuel) n acc h = ground (
  arith,
  value-decimal fuel (n / 10) ((48 + n % 10) ∷ acc),
  ap (λ (v : ℕ). value v acc) (digits_back n),
)
  where
    digits_back : (k : ℕ) → k / 10 * 10 + (48 + k % 10 - 48) ≡ k
    digits_back k = omega arith

pub value-to_string : (n : ℕ) → value 0 (to_string n) ≡ n
unfolding to_string value
value-to_string n = value-decimal (suc n) n [] (omega arith)

-- Different numbers print differently.
pub to_string_inj : (m n : ℕ) → to_string m ≡ to_string n → m ≡ n
to_string_inj m n e = sym (value-to_string m) ∙ ap (value 0) e ∙ value-to_string n

-- The bytes `0` to `9`.
abbrev pub IsDigitByte : ℕ → Type 0
IsDigitByte c = (48 ≤ c) × (c ≤ 57)

decimal-digits :
    (fuel n : ℕ) (acc : Str) → All IsDigitByte acc → All IsDigitByte (decimal fuel n acc)
unfolding decimal
decimal-digits zero n acc h = h
decimal-digits (suc fuel) n acc h = elim (Bool-cases (ltb n 10)) [
  | inl small ↦ rw small ((omega arith, ground (arith, small)), h)
  | inr big ↦
      rw big (decimal-digits fuel (n / 10) ((48 + n % 10) ∷ acc) ((omega arith, omega arith), h))
]

pub to_string-digits : (n : ℕ) → All IsDigitByte (to_string n)
unfolding to_string
to_string-digits n = decimal-digits (suc n) n [] tt

decimal-length-pos : (fuel n : ℕ) (acc : Str) → length acc < length (decimal (suc fuel) n acc)
unfolding decimal
decimal-length-pos zero n acc = ground arith
decimal-length-pos (suc fuel) n acc =
    ground (arith, decimal-length-pos fuel (n / 10) ((48 + n % 10) ∷ acc))

pub to_string-length-pos : (n : ℕ) → 0 < length (to_string n)
unfolding to_string
to_string-length-pos n = decimal-length-pos n n []

abbrev pub power_of_ten : ℕ → ℕ
power_of_ten zero = 1
power_of_ten (suc k) = 10 * power_of_ten k

decimal-length-le :
    (k fuel n : ℕ) (acc : Str)
    → n < power_of_ten (suc k)
    → length (decimal fuel n acc) ≤ suc k + length acc
unfolding decimal
decimal-length-le k zero n acc h = omega arith
decimal-length-le zero (suc fuel) n acc h = ground (arith, h)
decimal-length-le (suc k) (suc fuel) n acc h = elim (Bool-cases (ltb n 10)) [
  | inl small ↦ rw small (omega arith)
  | inr big ↦
      rw big
        (omega (arith, decimal-length-le k fuel (n / 10) ((48 + n % 10) ∷ acc) (omega (arith, h))))
]

-- A number below the power of ten with k + 1 zeros prints with at most k + 1 digits.
pub to_string-length-le : (k n : ℕ) → n < power_of_ten (suc k) → length (to_string n) ≤ suc k
unfolding to_string
to_string-length-le k n h = omega (arith, decimal-length-le k (suc n) n [] h)
