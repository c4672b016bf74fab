-- ===== src/Net/Scan.antt =====
-- `sscanf(reply, "SF4EPROBE %u.%u.%u.%u:%u", &a, &b, &c, &d, &p) == 5` as Net_ProbeGgpoPort of
-- src/session/sf4e__Resolve.cxx calls it, on the bytes up to the first NUL.
use sf4_rollback_gui.Prelude.{
  ℕ, ◌+◌, ◌*◌, ◌-◌, ◌%◌, ◌^◌, [], ◌∷◌, ◌++◌, List, Option, none, some, Str, lit, ◌==◌,
  if◌then◌else◌, to_string,
}
use sf4_rollback_gui.Server.Relay.{strip_prefix}
use sf4_rollback_gui.Server.Relay.Scan.{c_string, is_digit, skip_space, starts_with_digit}

-- The digits in front of the text, from the value `v` on, and the text behind them.
unfoldable pub scan_number : ℕ → Str → ℕ × Str
scan_number v [] = (v, [])
scan_number v (c ∷ s) =
    let more = scan_number (v * 10 + (c - 48)) s in if is_digit c then more else (v, c ∷ s)

unfoldable pub scan_plain : Str → Option (ℕ × Str)
scan_plain s = if starts_with_digit s then some (scan_number 0 s) else none

-- A minus sign negates the unsigned int. A value past its range is undefined in C and is kept here.
unfoldable pub scan_signed_number : Str → Option (ℕ × Str)
scan_signed_number [] = none
scan_signed_number (c ∷ s) =
    if c == b'-'
    then elim (scan_plain s) [
      | none ↦ none
      | some (n, rest) ↦ some ((2 ^ 32 - n % 2 ^ 32) % 2 ^ 32, rest)
    ]
    else scan_plain (if c == b'+' then s else c ∷ s)

-- `%u`
unfoldable pub scan_u : Str → Option (ℕ × Str)
scan_u s = scan_signed_number (skip_space s)

-- The byte of the format at the front of the text, and the rest.
unfoldable pub scan_byte : ℕ → Str → Option Str
scan_byte b s = strip_prefix (b ∷ []) s

-- A number, and the further ones, each behind its separator.
unfoldable pub scan_numbers : List ℕ → Str → Option (List ℕ)
scan_numbers [] s = elim (scan_u s) [ none ↦ none | some (n, rest) ↦ some (n ∷ []) ]
scan_numbers (b ∷ bs) s = elim (scan_u s) [
  | none ↦ none
  | some (n, rest) ↦ elim (scan_byte b rest) [
    | none ↦ none
    | some t ↦ elim (scan_numbers bs t) [ none ↦ none | some ns ↦ some (n ∷ ns) ]
  ]
]

-- `port` is `p`, and `text` what the five numbers print as.
pub record Reply : Type 0 where
  pub text : Str
  pub port : ℕ

unfoldable pub print_endpoint : ℕ → ℕ → ℕ → ℕ → ℕ → Str
print_endpoint a b c d p =
    to_string a
    ++ (b'.'
        ∷ (to_string b ++ (b'.' ∷ (to_string c ++ (b'.' ∷ (to_string d ++ (b':' ∷ to_string p)))))))

unfoldable pub reply_of : List ℕ → Option Reply
reply_of (a ∷ b ∷ c ∷ d ∷ p ∷ []) = some (record { text = print_endpoint a b c d p; port = p })
reply_of _ = none

unfoldable pub scan_reply : Str → Option Reply
scan_reply s = elim (strip_prefix (lit "SF4EPROBE") (c_string s)) [
  | none ↦ none
  | some rest ↦ elim (scan_numbers (b'.' ∷ b'.' ∷ b'.' ∷ b':' ∷ []) (skip_space rest)) [
    | none ↦ none
    | some ns ↦ reply_of ns
  ]
]
