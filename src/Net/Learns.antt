-- ===== src/Net/Learns.antt =====
-- The text of a probe's answer: what the server prints is what the client of
-- src/session/sf4e__Resolve.cxx reads.
use sf4_rollback_gui.Prelude.{
  ℕ, ◌+◌, ◌*◌, ◌-◌, ◌≤◌, ◌<◌, ◌≡◌, refl, sym, ap, ◌∙◌, true, false, [], ◌∷◌, ◌++◌, List, some, Str,
  lit, All, All-append, length, length-append, to_string, value, value-to_string, ◌==◌, ==_iff,
  to_string-digits, to_string-length-pos, to_string-length-le, IsDigitByte, arith,
}
use mathlib.Core.List.{append-nil}
use sf4_rollback_gui.Server.State.{Endpoint}
use sf4_rollback_gui.Server.Relay.{strip_prefix, endpoint_text, ip_byte}
use sf4_rollback_gui.Server.Relay.Scan.{c_string, is_digit, is_space, skip_space, starts_with_digit}
use sf4_rollback_gui.Net.Scan.{
  scan_number, scan_plain, scan_signed_number, scan_u, scan_byte, scan_numbers, print_endpoint,
  reply_of, scan_reply,
}

scan_number-digits :
    (v : ℕ) (ds rest : Str)
    → All IsDigitByte ds
    → starts_with_digit rest ≡ false
    → scan_number v (ds ++ rest) ≡ (value v ds, rest)
unfolding scan_number value starts_with_digit is_digit
scan_number-digits v [] [] h stop = refl
scan_number-digits v [] (c ∷ rest) h stop = ground (arith, stop)
scan_number-digits v (d ∷ ds) rest h stop =
    ground (arith, h.0, scan_number-digits (v * 10 + (d - 48)) ds rest h.1 stop)

scan_u-digits :
    (ds rest : Str)
    → All IsDigitByte ds
    → 0 < length ds
    → starts_with_digit rest ≡ false
    → scan_u (ds ++ rest) ≡ some (value 0 ds, rest)
unfolding scan_u skip_space is_space scan_signed_number scan_plain starts_with_digit is_digit
scan_u-digits [] rest h k stop = absurd (omega arith)
scan_u-digits (d ∷ ds) rest h k stop =
    ground (arith, h.0, scan_number-digits 0 (d ∷ ds) rest h stop)

scan_u-to_string :
    (n : ℕ) (rest : Str)
    → starts_with_digit rest ≡ false
    → scan_u (to_string n ++ rest) ≡ some (n, rest)
scan_u-to_string n rest stop =
    scan_u-digits (to_string n) rest (to_string-digits n) (to_string-length-pos n) stop
    ∙ ap (λ k. some (k, rest)) (value-to_string n)

-- A number with its separator behind it.
scan_one :
    (n b : ℕ) (bs : List ℕ) (t : Str) (ns : List ℕ)
    → is_digit b ≡ false
    → scan_numbers bs t ≡ some ns
    → scan_numbers (b ∷ bs) (to_string n ++ b ∷ t) ≡ some (n ∷ ns)
unfolding scan_numbers scan_byte strip_prefix starts_with_digit
scan_one n b bs t ns sep h =
    let same : (b == b) ≡ true = (==_iff b b).1 refl in
    rw (scan_numbers, scan_u-to_string n (b ∷ t) sep, scan_byte, strip_prefix, same, h) refl

scan_last : (n : ℕ) → scan_numbers [] (to_string n) ≡ some (n ∷ [])
unfolding scan_numbers starts_with_digit
scan_last n = rw (scan_numbers, scan_all) refl
  where
    scan_all : scan_u (to_string n) ≡ some (n, [])
    scan_all =
        ap scan_u (sym (append-nil (to_string n)))
        ∙ scan_u-to_string n [] (unfold starts_with_digit in refl)

-- The five numbers of an endpoint's text.
scan_numbers-endpoint :
    (e : Endpoint)
    → scan_numbers (b'.' ∷ b'.' ∷ b'.' ∷ b':' ∷ []) (endpoint_text e)
      ≡ some
          (ip_byte e.addr 0 ∷ ip_byte e.addr 1 ∷ ip_byte e.addr 2 ∷ ip_byte e.addr 3 ∷ e.port ∷ [])
unfolding endpoint_text
scan_numbers-endpoint e = scan_one _ b'.' _ _ _ dot (
    scan_one _ b'.' _ _ _ dot
      (scan_one _ b'.' _ _ _ dot (scan_one _ b':' _ _ _ colon (scan_last e.port))))
  where
    dot : is_digit b'.' ≡ false
    dot = unfold is_digit in refl

    colon : is_digit b':' ≡ false
    colon = unfold is_digit in refl

-- The answer that the server sends to a probe from an endpoint.
abbrev pub answer_text : Endpoint → Str
answer_text e = lit "SF4EPROBE " ++ endpoint_text e

-- Text without NUL.
c_string-whole : (s : Str) → All (λ c. 0 < c) s → c_string s ≡ s
unfolding c_string
c_string-whole [] h = refl
c_string-whole (c ∷ s) h = ground (arith, h.0, c_string-whole s h.1)

digits-positive : (ds : Str) → All IsDigitByte ds → All (λ c. 0 < c) ds
digits-positive [] h = tt
digits-positive (d ∷ ds) h = (omega (arith, h.0), digits-positive ds h.1)

number-positive : (n : ℕ) (s : Str) → All (λ c. 0 < c) s → All (λ c. 0 < c) (to_string n ++ s)
number-positive n s h =
    All-append (λ c. 0 < c) (to_string n) s (digits-positive (to_string n) (to_string-digits n)) h

endpoint_text-positive : (e : Endpoint) → All (λ c. 0 < c) (endpoint_text e)
unfolding endpoint_text
endpoint_text-positive e = number-positive _ _ (
  omega arith,
  number-positive _ _ (
    omega arith,
    number-positive _ _ (
      omega arith,
      number-positive _ _
          (omega arith, digits-positive (to_string e.port) (to_string-digits e.port)),
    ),
  ),
)

ip_byte-lt : (a n : ℕ) → ip_byte a n < 256
unfolding ip_byte
ip_byte-lt a n = omega arith

byte-length : (a n : ℕ) (s : Str) → length (to_string (ip_byte a n) ++ s) ≤ 3 + length s
byte-length a n s = omega (
  arith,
  length-append (to_string (ip_byte a n)) s,
  to_string-length-le 2 (ip_byte a n) (omega (arith, ip_byte-lt a n)),
)

pub endpoint_text-length : (e : Endpoint) → e.port < 65536 → length (endpoint_text e) ≤ 21
unfolding endpoint_text
endpoint_text-length e h =
    let t3 = b':' ∷ to_string e.port in
    let t2 = b'.' ∷ (to_string (ip_byte e.addr 3) ++ t3) in
    let t1 = b'.' ∷ (to_string (ip_byte e.addr 2) ++ t2) in
    let t0 = b'.' ∷ (to_string (ip_byte e.addr 1) ++ t1) in
    omega (
      arith,
      to_string-length-le 4 e.port (omega (arith, h)),
      byte-length e.addr 3 t3,
      byte-length e.addr 2 t2,
      byte-length e.addr 1 t1,
      byte-length e.addr 0 t0,
    )

skip_digit : (d : ℕ) (s : Str) → IsDigitByte d → skip_space (d ∷ s) ≡ d ∷ s
unfolding skip_space is_space
skip_digit d s h = ground (arith, h)

skip_space-number : (n : ℕ) (s : Str) → skip_space (to_string n ++ s) ≡ to_string n ++ s
skip_space-number n s = go (to_string n) (to_string-digits n) (to_string-length-pos n)
  where
    go : (ds : Str) → All IsDigitByte ds → 0 < length ds → skip_space (ds ++ s) ≡ ds ++ s
    go [] h k = absurd (omega arith)
    go (d ∷ ds) h k = skip_digit d (ds ++ s) h.0

skip_space-endpoint : (e : Endpoint) → skip_space (32 ∷ endpoint_text e) ≡ endpoint_text e
unfolding skip_space is_space endpoint_text
skip_space-endpoint e = skip_space-number (ip_byte e.addr 0) _

c_string-answer : (e : Endpoint) → c_string (answer_text e) ≡ answer_text e
c_string-answer e = c_string-whole (answer_text e) (ground (arith, endpoint_text-positive e))

-- What a client reads in the answer to its probe.
pub scan_reply-answer :
    (e : Endpoint)
    → scan_reply (answer_text e) ≡ some (record { text = endpoint_text e; port = e.port })
unfolding scan_reply strip_prefix reply_of print_endpoint endpoint_text
scan_reply-answer e =
    rw (scan_reply, c_string-answer e, skip_space-endpoint e, scan_numbers-endpoint e) refl

pub answer-length :
    (e : Endpoint) → e.port < 65536 → (length (answer_text e) ≤ 31) × (10 ≤ length (answer_text e))
answer-length e h = (omega (arith, endpoint_text-length e h), omega arith)
