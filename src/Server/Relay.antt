-- ===== src/Server/Relay.antt =====
-- StepRelay and the NAT probe echo of src/session/sf4e__SessionServer.cxx. An endpoint holds the
-- address and the port in host order. A list of datagrams is what successive calls of `recvfrom`
-- deliver into the buffer; an empty one ends the loop, as an error does.
pub mod Scan
pub mod Registration
pub mod Cross
use sf4_rollback_gui.Prelude.{
  ℕ, zero, suc, ◌+◌, ◌-◌, ◌*◌, ◌/◌, ◌%◌, ◌^◌, Bool, true, false, not, ◌&&◌, ◌||◌, List, [], ◌∷◌,
  ◌++◌, Option, none, some, ℤ, pos, negsuc, Str, lit, is_empty, take, ltb, leb, ◌==◌, if◌then◌else◌,
  sub64, to_string,
}
use sf4_rollback_gui.Prelude.Map
use sf4_rollback_gui.Prelude.Map.{Map, str_key}
use sf4_rollback_gui.Protocol.{Sides, side, set_side}
use sf4_rollback_gui.Server.State.{
  Server, Endpoint, RelayPair, Socket, relay_socket, probe_socket, send_datagram, net_call,
}
use Scan.{c_string, scan_registration}

pub record Datagram : Type 0 where
  pub sender : Endpoint
  pub bytes : Str

-- `memcmp(buf, prefix, n) == 0` with `got >= n`: the rest of the text.
unfoldable pub strip_prefix : Str → Str → Option Str
strip_prefix [] s = some s
strip_prefix (c ∷ p) [] = none
strip_prefix (c ∷ p) (d ∷ s) = if c == d then strip_prefix p s else none

abbrev pub relay_buffer : ℕ
relay_buffer = 2048

unfoldable pub pair_at : Str → Map Str RelayPair → RelayPair
pair_at token m = elim (Map.find token m) [
  | none ↦ record { seats = record { p1 = none; p2 = none }; last_seen_ms = 0 }
  | some p ↦ p
]

unfoldable pub register_seat : ℕ → Str → ℕ → Endpoint → Server → Server
register_seat now token seat e s =
    let p = pair_at token s.relay_pairs in
    record s {
      relay_pairs =
          Map.insert token (record p { seats = set_side seat (some e) p.seats; last_seen_ms = now })
            s.relay_pairs;
    }

-- A registration counts with two fields and the seat 0 or 1. The NUL goes over the last byte of a full
-- buffer.
unfoldable pub handle_registration : ℕ → Endpoint → Str → Server → Server
handle_registration now e text s = elim (scan_registration (c_string text)) [
  | none ↦ s
  | some (token, n) ↦ elim n [
    | pos i ↦ if ltb i 2 then register_seat now token i e s else s
    | negsuc i ↦ s
  ]
]

unfoldable pub is_endpoint : Endpoint → Option Endpoint → Bool
is_endpoint e none = false
is_endpoint e (some f) = f.addr == e.addr && f.port == e.port

-- The seat of the pair that an endpoint holds.
unfoldable pub source_seat : Endpoint → RelayPair → Option ℕ
source_seat e p =
    if is_endpoint e p.seats.p1 then some 0 else if is_endpoint e p.seats.p2 then some 1 else none

pub record Route : Type 0 where
  pub token : Str
  pub seat : ℕ
  pub pair : RelayPair

-- The first pair that the endpoint belongs to.
unfoldable pub find_route : Endpoint → Map Str RelayPair → Option Route
find_route e [] = none
find_route e ((token, p) ∷ m) = elim (source_seat e p) [
  | some seat ↦ some (record { token = token; seat = seat; pair = p })
  | none ↦ find_route e m
]

-- `src ^ 1`
unfoldable pub other_seat : ℕ → ℕ
other_seat zero = 1
other_seat (suc n) = 0

unfoldable pub forward_datagram : ℕ → Endpoint → Str → Server → Server
forward_datagram now e bytes s = elim (find_route e s.relay_pairs) [
  | none ↦ s
  | some r ↦ elim (side (other_seat r.seat) r.pair.seats) [
    | none ↦ s
    | some to ↦
        let seen = record (r.pair) { last_seen_ms = now } in
        record (net_call (send_datagram relay_socket to bytes) s) {
          relay_pairs = Map.insert r.token seen s.relay_pairs;
        }
  ]
]

-- One round of the loop. `none` is its end, where the read gives no byte.
unfoldable pub relay_datagram : ℕ → Datagram → Server → Option Server
relay_datagram now d s =
    if is_empty d.bytes then none else elim (strip_prefix (lit "SF4ERELAY ") d.bytes) [
      | some text ↦ some (handle_registration now d.sender (take (relay_buffer - 11) text) s)
      | none ↦ some (forward_datagram now d.sender d.bytes s)
    ]

unfoldable pub relay_loop : ℕ → ℕ → List Datagram → Server → Server
relay_loop zero now ds s = s
relay_loop (suc n) now [] s = s
relay_loop (suc n) now (d ∷ ds) s = elim (relay_datagram now d s) [
  | none ↦ s
  | some s' ↦ relay_loop n now ds s'
]

abbrev pub relay_idle_ms : ℕ
relay_idle_ms = 300000

unfoldable pub prune_pairs : ℕ → Map Str RelayPair → Map Str RelayPair
prune_pairs now [] = []
prune_pairs now ((token, p) ∷ m) =
    let rest = prune_pairs now m in
    if ltb relay_idle_ms (sub64 now p.last_seen_ms) then rest else (token, p) ∷ rest

abbrev pub relay_batch : ℕ
relay_batch = 64

unfoldable pub step_relay : ℕ → List Datagram → Server → Server
step_relay now ds s =
    let s' = relay_loop relay_batch now ds s in
    if s.relay_bound then record s' { relay_pairs = prune_pairs now s'.relay_pairs } else s

-- IpByte of src/session/sf4e__Portable.hxx: byte 0 is the leftmost.
unfoldable pub ip_byte : ℕ → ℕ → ℕ
ip_byte addr n = addr / 2 ^ (8 * (3 - n)) % 256

unfoldable pub endpoint_text : Endpoint → Str
endpoint_text e =
    to_string (ip_byte e.addr 0)
    ++ (b'.'
        ∷ (to_string (ip_byte e.addr 1)
            ++ (b'.'
                ∷ (to_string (ip_byte e.addr 2)
                    ++ (b'.' ∷ (to_string (ip_byte e.addr 3) ++ (b':' ∷ to_string e.port)))))))

unfoldable pub answer_probe : ℕ → Datagram → Server → Server
answer_probe i d s = elim (strip_prefix (lit "SF4EPROBE") d.bytes) [
  | none ↦ s
  | some rest ↦
      net_call
        (send_datagram (probe_socket i) d.sender (lit "SF4EPROBE " ++ endpoint_text d.sender)) s
]

unfoldable pub probe_loop : ℕ → ℕ → List Datagram → Server → Server
probe_loop zero i ds s = s
probe_loop (suc n) i [] s = s
probe_loop (suc n) i (d ∷ ds) s =
    let more = probe_loop n i ds (answer_probe i d s) in if is_empty d.bytes then s else more

abbrev pub probe_batch : ℕ
probe_batch = 8

unfoldable pub step_probe : ℕ → Bool → List Datagram → Server → Server
step_probe i bound ds s = if bound then probe_loop probe_batch i ds s else s
