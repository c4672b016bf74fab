-- ===== src/Net/Resolve.antt =====
-- ResolveHostPort and Net_RelayRegister of src/session/sf4e__Resolve.cxx. An input is a C string.
use sf4_rollback_gui.Prelude.{
  ℕ, ◌+◌, ◌-◌, ◌*◌, ◌^◌, ◌<◌, ◌≡◌, refl, Bool, true, false, ◌||◌, [], ◌∷◌, ◌++◌, List, Option, none,
  some, ℤ, pos, negsuc, Str, is_empty, length, take, ltb, ◌==◌, if◌then◌else◌, to_string, arith,
  All, IsDigitByte, to_string-digits, to_string-length-pos, value, value-to_string,
}
use sf4_rollback_gui.Server.State.{Server, Endpoint}
use sf4_rollback_gui.Server.Relay.{relay_datagram, register_seat}
use sf4_rollback_gui.Server.Relay.Scan.{
  scan_int, scan_signed, scan_unsigned, scan_digits, skip_space, is_space, is_digit,
  starts_with_digit,
}
use sf4_rollback_gui.Server.Relay.Registration.{
  registration_text, IsToken, registration-length, relay_datagram-register,
}
use sf4_rollback_gui.Client.State.{IpAddress}
use sf4_rollback_gui.Net.{SocketCall, bind_port, send_to, close_socket}

-- What the libraries provide: `SteamNetworkingIPAddr::ParseString`, the first IPv4 address, in host
-- order, that `getaddrinfo` finds for a name, and what `atoi` gives for a value that no int holds,
-- which C leaves undefined.
pub record Resolver : Type 0 where
  pub parse_string : Str → Option IpAddress
  pub look_up : Str → Option ℕ
  pub out_of_int : ℤ → ℤ

-- `strrchr(input, ':')`: the text before the last colon and the text behind it.
unfoldable pub split_last_colon : Str → Option (Str × Str)
split_last_colon [] = none
split_last_colon (c ∷ s) = elim (split_last_colon s) [
  | some (before, behind) ↦ some (c ∷ before, behind)
  | none ↦ if c == b':' then some ([], s) else none
]

unfoldable pub fits_int : ℤ → Bool
fits_int (pos n) = ltb n (2 ^ 31)
fits_int (negsuc n) = ltb n (2 ^ 31)

-- `atoi`, with 0 where there is no number.
unfoldable pub atoi : Resolver → Str → ℤ
atoi r s = elim (scan_int s) [ none ↦ pos 0 | some n ↦ if fits_int n then n else r.out_of_int n ]

-- The port, if it is one.
unfoldable pub port_of : ℤ → Option ℕ
port_of (pos n) = if n == 0 then none else if ltb 65535 n then none else some n
port_of (negsuc n) = none

unfoldable pub resolve_name : Resolver → Str → ℕ → Option IpAddress
resolve_name r host port = elim (r.look_up host) [
  | none ↦ none
  | some ip ↦ some (record { ipv4 = ip; port = port; is_local_host = false })
]

unfoldable pub resolve_split : Resolver → Option (Str × Str) → Option IpAddress
resolve_split r none = none
resolve_split r (some (host, behind)) =
    if is_empty host
    then none
    else elim (port_of (atoi r behind)) [ none ↦ none | some port ↦ resolve_name r host port ]

-- ResolveHostPort: the address, or `none` where it gives false.
unfoldable pub resolve_host_port : Resolver → Str → Option IpAddress
resolve_host_port r input = elim (r.parse_string input) [
  | some a ↦ if a.port == 0 then none else some a
  | none ↦ resolve_split r (split_last_colon input)
]

-- What `sendto` sends of the buffer of 160 bytes. The length is that of the whole text, so a longer text
-- brings its NUL and what stands behind the buffer along.
unfoldable pub sent_registration : Str → Str → Str
sent_registration beyond text =
    if ltb (length text) 160 then text else take 159 text ++ 0 ∷ take (length text - 160) beyond

-- Net_RelayRegister. `socket` and `is_bound` are what the system gives, and `beyond` the memory behind
-- the buffer.
unfoldable pub relay_register :
    Resolver → Option ℕ → Bool → Str → Str → ℕ → Str → ℕ → Bool × List SocketCall
relay_register r socket is_bound beyond relay_endpoint local_port token seat =
    elim (r.parse_string relay_endpoint) [
      | none ↦ (false, [])
      | some a ↦ if a.port == 0 || a.ipv4 == 0 then (false, []) else elim socket [
        | none ↦ (false, [])
        | some s ↦
            let text = sent_registration beyond (registration_text token seat) in
            let send = send_to s (record { addr = a.ipv4; port = a.port }) text in
            if is_bound
            then (true, bind_port s local_port ∷ send ∷ send ∷ send ∷ send ∷ close_socket s ∷ [])
            else (false, bind_port s local_port ∷ close_socket s ∷ [])
      ]
    ]

-- The last colon of a text that ends in `:` and a text without one.
split_last_colon-none : (t : Str) → All IsDigitByte t → split_last_colon t ≡ none
unfolding split_last_colon
split_last_colon-none [] h = refl
split_last_colon-none (c ∷ t) h = ground (arith, h.0, split_last_colon-none t h.1)

split_last_colon-append :
    (s t : Str) → All IsDigitByte t → split_last_colon (s ++ b':' ∷ t) ≡ some (s, t)
unfolding split_last_colon
split_last_colon-append [] t h = ground (arith, split_last_colon-none t h)
split_last_colon-append (c ∷ s) t h = rw (split_last_colon, split_last_colon-append s t h) refl

scan_digits-value : (v : ℕ) (t : Str) → All IsDigitByte t → scan_digits v t ≡ value v t
unfolding scan_digits is_digit value
scan_digits-value v [] h = refl
scan_digits-value v (c ∷ t) h = ground (arith, h.0, scan_digits-value (v * 10 + (c - 48)) t h.1)

scan_int-digits : (t : Str) → All IsDigitByte t → 0 < length t → scan_int t ≡ some (pos (value 0 t))
unfolding scan_int skip_space is_space scan_signed scan_unsigned starts_with_digit is_digit
scan_int-digits [] h k = absurd (omega arith)
scan_int-digits (c ∷ t) h k = ground (arith, h.0, scan_digits-value 0 (c ∷ t) h)

atoi-to_string : (r : Resolver) (n : ℕ) → n < 2 ^ 31 → atoi r (to_string n) ≡ pos n
unfolding atoi fits_int
atoi-to_string r n h =
    rw
      (
        atoi,
        scan_int-digits (to_string n) (to_string-digits n) (to_string-length-pos n),
        value-to_string n,
      )
      (ground (arith, h))

-- A text `host:n` that is no literal address, where `n` is below 2 ^ 31 and the host may hold colons
-- itself, is looked up as the host with the port `n`; it is turned down if the host is empty or `n` is
-- no port, which is 0 or above 65535.
pub resolve_host_port-text :
    (r : Resolver) (host : Str) (n : ℕ)
    → n < 2 ^ 31
    → r.parse_string (host ++ b':' ∷ to_string n) ≡ none
    → resolve_host_port r (host ++ b':' ∷ to_string n)
      ≡ (if is_empty host || (n == 0 || ltb 65535 n) then none else resolve_name r host n)
unfolding resolve_host_port resolve_split port_of
resolve_host_port-text r host n small literal =
    rw
      (
        resolve_host_port,
        literal,
        split_last_colon-append host (to_string n) (to_string-digits n),
        resolve_split,
        atoi-to_string r n small,
        port_of,
      )
      (ground arith)

registration-fits :
    (beyond token : Str) (seat : ℕ)
    → IsToken token
    → seat < 2
    → sent_registration beyond (registration_text token seat) ≡ registration_text token seat
unfolding sent_registration registration_text
registration-fits beyond token seat t h = ground (arith, registration-length token seat t h)

-- A client that holds a token of 1 to 127 bytes, none of them a space or NUL, and seat 0 or 1, and whose
-- relay's address reads as an IPv4 address with a port, sends four datagrams from the port that it binds
-- to the relay, and closes the socket. Each of them, when it reaches the relay from the endpoint `e`,
-- puts `e` into the seat of the token's pair.
pub relay_register-registers :
    (r : Resolver) (s local_port : ℕ) (beyond relay_endpoint token : Str) (seat : ℕ) (a : IpAddress)
    (now : ℕ) (e : Endpoint) (t : Server)
    → r.parse_string relay_endpoint ≡ some a
    → (a.port == 0 || a.ipv4 == 0) ≡ false
    → IsToken token
    → seat < 2
    → (text : Str) × (relay_register r (some s) true beyond relay_endpoint local_port token seat ≡ (
      true,
      bind_port s local_port
          ∷ send_to s (record { addr = a.ipv4; port = a.port }) text
          ∷ send_to s (record { addr = a.ipv4; port = a.port }) text
          ∷ send_to s (record { addr = a.ipv4; port = a.port }) text
          ∷ send_to s (record { addr = a.ipv4; port = a.port }) text
          ∷ close_socket s
          ∷ [],
    ))
      × (relay_datagram now (record { sender = e; bytes = text }) t
          ≡ some (register_seat now token seat e t))
unfolding relay_register
relay_register-registers r s local_port beyond relay_endpoint token seat a now e t reads usable fits
      h =
    (
      registration_text token seat,
      rw (relay_register, reads, usable, registration-fits beyond token seat fits h) refl,
      relay_datagram-register now token seat e t fits h,
    )
