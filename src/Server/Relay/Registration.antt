-- ===== src/Server/Relay/Registration.antt =====
-- The registration datagram: what Net_RelayRegister of src/session/sf4e__Resolve.cxx prints and
-- StepRelay of src/session/sf4e__SessionServer.cxx reads.
use sf4_rollback_gui.Prelude.{
  ℕ, zero, suc, ◌≤◌, ◌<◌, ◌≡◌, ◌≢◌, refl, false, [], ◌∷◌, ◌++◌, some, pos, Str, lit, length,
  length-append, take, take-all, is_empty, All, to_string, arith,
}
use sf4_rollback_gui.Prelude.Map.{str_key}
use sf4_rollback_gui.Server.State.{Server, Endpoint}
use sf4_rollback_gui.Server.Relay.Scan.{
  c_string, is_space, skip_space, scan_word, scan_int, scan_signed, scan_unsigned, scan_digits,
  starts_with_digit, is_digit, scan_fields, scan_registration,
}
use sf4_rollback_gui.Server.Relay.{strip_prefix, register_seat, handle_registration, relay_datagram}

-- `snprintf(msg, sizeof(msg), "SF4ERELAY %s %d", token, seat)` for a text that fits into 160 bytes.
unfoldable pub registration_text : Str → ℕ → Str
registration_text token seat = lit "SF4ERELAY " ++ (token ++ (32 ∷ to_string seat))

-- A byte that is neither a space nor NUL.
abbrev pub IsWordByte : ℕ → Type 0
IsWordByte c = (is_space c ≡ false) × (c ≢ 0)

abbrev pub IsToken : Str → Type 0
IsToken token = All IsWordByte token × (0 < length token) × (length token ≤ 127)

c_string-word : (w s : Str) → All IsWordByte w → c_string (w ++ s) ≡ w ++ c_string s
unfolding c_string
c_string-word [] s h = refl
c_string-word (c ∷ w) s h = ground (arith, c_string-word w s h.1, h.0.1)

scan_word-word :
    (width : ℕ) (w s : Str)
    → All IsWordByte w
    → length w ≤ width
    → scan_word width (w ++ 32 ∷ s) ≡ (w, 32 ∷ s)
unfolding scan_word
scan_word-word zero [] s h k = refl
scan_word-word zero (c ∷ w) s h k = absurd (omega arith)
scan_word-word (suc width) [] s h k = unfold is_space in refl
scan_word-word (suc width) (c ∷ w) s h k = ground (arith, h.0.0, scan_word-word width w s h.1)

skip_space-word : (w s : Str) → All IsWordByte w → 0 < length w → skip_space (w ++ s) ≡ w ++ s
unfolding skip_space
skip_space-word [] s h k = absurd (omega arith)
skip_space-word (c ∷ w) s h k = ground (arith, h.0.0)

-- The digit of a seat, as the scan reads it behind the token.
scan_seat :
    (seat : ℕ)
    → seat < 2
    → (c_string (32 ∷ to_string seat) ≡ 32 ∷ to_string seat)
      × (scan_int (32 ∷ to_string seat) ≡ some (pos seat))
      × (length (32 ∷ to_string seat) ≡ 2)
unfolding c_string to_string scan_int skip_space is_space scan_signed scan_unsigned
    starts_with_digit is_digit scan_digits
scan_seat zero h = (refl, refl, refl)
scan_seat (suc zero) h = (refl, refl, refl)
scan_seat (suc (suc n)) h = absurd (omega arith)

is_empty-length : (s : Str) → 0 < length s → is_empty s ≡ false
is_empty-length [] h = absurd (omega arith)
is_empty-length (c ∷ s) h = refl

room :
    (token : Str) (seat : ℕ)
    → length token ≤ 127
    → seat < 2
    → length (token ++ (32 ∷ to_string seat)) ≤ 2037
room token seat short h =
    let l = length-append token (32 ∷ to_string seat) in
    let two = (scan_seat seat h).2 in omega arith

scanned :
    (token : Str) (seat : ℕ)
    → IsToken token
    → seat < 2
    → scan_word 127 (skip_space (c_string (take 2037 (token ++ (32 ∷ to_string seat)))))
      ≡ (token, 32 ∷ to_string seat)
scanned token seat (words, full, short) h =
    rw
      (
        take-all 2037 (token ++ (32 ∷ to_string seat)) (room token seat short h),
        c_string-word token (32 ∷ to_string seat) words,
        (scan_seat seat h).0,
        skip_space-word token (32 ∷ to_string seat) words full,
      )
      (scan_word-word 127 token (to_string seat) words short)

-- The server reads back the token and the seat that a client prints.
scan_registration-text :
    (token : Str) (seat : ℕ)
    → IsToken token
    → seat < 2
    → scan_registration (c_string (take 2037 (token ++ (32 ∷ to_string seat))))
      ≡ some (token, pos seat)
unfolding scan_registration
scan_registration-text token seat t h =
    rw (scanned token seat t h)
      (unfold scan_fields in rw (is_empty-length token t.1, (scan_seat seat h).1))

-- The registration datagram that a client prints for a token of 1 to 127 bytes, none of them a space or
-- NUL, and for seat 0 or 1 is read back: its sender's endpoint goes into that seat of that token's pair.
pub relay_datagram-register :
    (now : ℕ) (token : Str) (seat : ℕ) (e : Endpoint) (s : Server)
    → IsToken token
    → seat < 2
    → relay_datagram now (record { sender = e; bytes = registration_text token seat }) s
      ≡ some (register_seat now token seat e s)
unfolding relay_datagram registration_text strip_prefix handle_registration
relay_datagram-register now token seat e s t h =
    ground (arith, scan_registration-text token seat t h)

-- It is shorter than the buffer that the client prints it into.
pub registration-length :
    (token : Str) (seat : ℕ)
    → IsToken token
    → seat < 2
    → length (registration_text token seat) < 160
unfolding registration_text
registration-length token seat (words, full, short) h =
    let l = length-append token (32 ∷ to_string seat) in
    let two = (scan_seat seat h).2 in omega arith
