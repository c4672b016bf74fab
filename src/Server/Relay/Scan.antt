-- ===== src/Server/Relay/Scan.antt =====
-- `sscanf(text, "%127s %d", token, &seat) == 2` as SessionServer::StepRelay of
-- src/session/sf4e__SessionServer.cxx calls it, on the bytes up to the first NUL.
use sf4_rollback_gui.Prelude.{
  ℕ, zero, suc, ◌+◌, ◌*◌, ◌-◌, Bool, false, ◌&&◌, ◌||◌, [], ◌∷◌, Option, none, some, ℤ, pos, negsuc,
  Str, is_empty, leb, ◌==◌, if◌then◌else◌,
}

-- A C string ends at its first NUL.
unfoldable pub c_string : Str → Str
c_string [] = []
c_string (c ∷ s) = if c == 0 then [] else c ∷ c_string s

-- `isspace` in the C locale.
unfoldable pub is_space : ℕ → Bool
is_space c = c == 32 || (leb 9 c && leb c 13)

unfoldable pub is_digit : ℕ → Bool
is_digit c = leb 48 c && leb c 57

unfoldable pub skip_space : Str → Str
skip_space [] = []
skip_space (c ∷ s) = if is_space c then skip_space s else c ∷ s

-- At most `width` bytes that are no space, and the rest.
unfoldable pub scan_word : ℕ → Str → Str × Str
scan_word zero s = ([], s)
scan_word (suc width) [] = ([], [])
scan_word (suc width) (c ∷ s) =
    let more = scan_word width s in if is_space c then ([], c ∷ s) else (c ∷ more.0, more.1)

-- The digits in front of the text, from the value `v` on.
unfoldable pub scan_digits : ℕ → Str → ℕ
scan_digits v [] = v
scan_digits v (c ∷ s) =
    let more = scan_digits (v * 10 + (c - 48)) s in if is_digit c then more else v

unfoldable pub starts_with_digit : Str → Bool
starts_with_digit [] = false
starts_with_digit (c ∷ s) = is_digit c

unfoldable pub negate : ℕ → ℤ
negate zero = pos 0
negate (suc n) = negsuc n

unfoldable pub scan_unsigned : Str → Option ℕ
scan_unsigned s = if starts_with_digit s then some (scan_digits 0 s) else none

-- `%d`: optional space, an optional sign, digits. A value past the range of `int` is undefined in C
-- and is kept here.
unfoldable pub scan_signed : Str → Option ℤ
scan_signed [] = none
scan_signed (c ∷ s) =
    if c == b'-'
    then elim (scan_unsigned s) [ none ↦ none | some n ↦ some (negate n) ]
    else elim (scan_unsigned (if c == b'+' then s else c ∷ s)) [
      | none ↦ none
      | some n ↦ some (pos n)
    ]

unfoldable pub scan_int : Str → Option ℤ
scan_int s = scan_signed (skip_space s)

-- A token that was read, with the text behind it: `none` unless both conversions succeed.
unfoldable pub scan_fields : Str × Str → Option (Str × ℤ)
scan_fields (token, rest) =
    if is_empty token then none else elim (scan_int rest) [ none ↦ none | some n ↦ some (token, n) ]

unfoldable pub scan_registration : Str → Option (Str × ℤ)
scan_registration s = scan_fields (scan_word 127 (skip_space s))
