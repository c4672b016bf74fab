-- ===== src/Prelude/Text.antt =====
-- `std::string` as the list of its bytes: equality, the order of `std::string::operator<`, literals.
use Prim.Native.Nat.{ℕ}
use Prim.Native.Char.{code}
use Prim.Native.String.{String}
use mathlib.Core.Path.{◌≡◌, refl}
use mathlib.Core.Logic.{◌≢◌, ◌↔◌, inl, inr}
use mathlib.Core.Bool.{Bool, true, false, not, ◌&&◌, ◌||◌}
use mathlib.Core.List.{List, [], ◌∷◌}
use native.Mathlib.Omega.{arith}
use sf4_rollback_gui.Prelude.Tests.{◌==◌, ltb, Bool-cases}

abbrev pub Str : Type 0
Str = List ℕ

-- The bytes of an ASCII literal.
abbrev pub lit : String → Str
lit String.[] = []
lit (String.◌∷◌ c s) = code c ∷ lit s

unfoldable pub str_eqb : Str → Str → Bool
str_eqb [] [] = true
str_eqb [] (y ∷ ys) = false
str_eqb (x ∷ xs) [] = false
str_eqb (x ∷ xs) (y ∷ ys) = x == y && str_eqb xs ys

pub str_eqb_iff : (a b : Str) → (str_eqb a b ≡ true) ↔ (a ≡ b)
unfolding str_eqb
str_eqb_iff [] [] = ground arith
str_eqb_iff [] (y ∷ ys) = ground arith
str_eqb_iff (x ∷ xs) [] = ground arith
str_eqb_iff (x ∷ xs) (y ∷ ys) = ground (arith, str_eqb_iff xs ys)

pub str_eqb_refl : (a : Str) → str_eqb a a ≡ true
str_eqb_refl a = (str_eqb_iff a a).1 refl

pub str_ne : (a b : Str) → str_eqb a b ≡ false → a ≢ b
str_ne a b e same = elim (Bool-cases (str_eqb a b)) [
  | inl f ↦ absurd (ground (arith, e, f))
  | inr f ↦ absurd (ground (arith, f, (str_eqb_iff a b).1 same))
]

unfoldable pub str_ltb : Str → Str → Bool
str_ltb [] [] = false
str_ltb [] (y ∷ ys) = true
str_ltb (x ∷ xs) [] = false
str_ltb (x ∷ xs) (y ∷ ys) = ltb x y || (x == y && str_ltb xs ys)

pub str_ltb_irrefl : (a : Str) → str_ltb a a ≡ false
unfolding str_ltb
str_ltb_irrefl [] = refl
str_ltb_irrefl (x ∷ xs) = ground (arith, str_ltb_irrefl xs)

-- Of two different strings exactly one is less.
pub str_ltb_total : (a b : Str) → a ≢ b → str_ltb b a ≡ not (str_ltb a b)
unfolding str_ltb
str_ltb_total [] [] h = absurd (h refl)
str_ltb_total [] (y ∷ ys) h = refl
str_ltb_total (x ∷ xs) [] h = refl
str_ltb_total (x ∷ xs) (y ∷ ys) h = ground (arith, str_ltb_total xs ys)
