-- ===== src/Net.antt =====
-- src/session/sf4e__Resolve.cxx and .hxx: host names, the NAT probe that asks a session server for the
-- public endpoint of the game's port, and the registration with the relay. The sockets are inputs:
-- what `socket`, `bind` and `recvfrom` give. What the functions do with them is a list of calls.
pub mod Scan
pub mod Learns
pub mod Resolve
pub mod Attempts
pub mod Probe
pub mod Tests
use sf4_rollback_gui.Prelude.{
  ℕ, zero, suc, ◌+◌, ◌-◌, ◌%◌, ◌^◌, Bool, true, false, not, List, [], ◌∷◌, ◌++◌, Option, none, some,
  Str, lit, length, take, leb, ltb, ◌==◌, if◌then◌else◌,
}
use sf4_rollback_gui.Server.State.{Endpoint}
use sf4_rollback_gui.Server.Relay.Registration.{registration_text}
use sf4_rollback_gui.Client.State.{IpAddress}
use Scan.{Reply, scan_reply}

-- `sock` is `none` for an invalid socket.
pub record NatProbe : Type 0 where
  pub sock : Option ℕ
  pub public_port : ℕ
  pub public_addr : Str
  pub ok : Bool
  pub symmetric_known : Bool
  pub symmetric : Bool
  pub public_port2 : ℕ

abbrev pub new_probe : NatProbe
new_probe = record {
  sock = none;
  public_port = 0;
  public_addr = [];
  ok = false;
  symmetric_known = false;
  symmetric = false;
  public_port2 = 0;
}

pub data SocketCall : Type 0 where
  bind_port : ℕ → ℕ → SocketCall
  send_to : ℕ → Endpoint → Str → SocketCall
  set_non_blocking close_socket : ℕ → SocketCall

-- What the system gives: the socket, whether the port can be bound, and what each `recvfrom` writes into
-- the buffer, which is empty where nothing came or the call failed. Past the end of a list nothing comes.
pub record Sockets : Type 0 where
  pub socket : Option ℕ
  pub is_bound : Bool
  pub replies1 : List Str
  pub replies2 : List Str

abbrev pub probe_magic : Str
probe_magic = lit "SF4EPROBE"

-- `htons` takes an unsigned short.
unfoldable pub port_above : IpAddress → ℕ → Endpoint
port_above server n = record { addr = server.ipv4; port = (server.port + n) % 2 ^ 16 }

abbrev pub next_reply : List Str → Str
next_reply [] = []
next_reply (r ∷ rs) = r

abbrev pub later_replies : List Str → List Str
later_replies [] = []
later_replies (r ∷ rs) = rs

-- What a reply says, if it counts: more than nine bytes, at most the 63 that the buffer has room for,
-- with five numbers, the last of them a port.
unfoldable pub accept_reply : Str → Option Reply
accept_reply bytes = if leb (length bytes) 9 then none else elim (scan_reply (take 63 bytes)) [
  | none ↦ none
  | some r ↦ if not (r.port == 0) then (if ltb r.port 65536 then some r else none) else none
]

unfoldable pub note_first : Str → NatProbe → NatProbe
note_first bytes out = elim (accept_reply bytes) [
  | none ↦ out
  | some r ↦ record out { public_port = r.port; public_addr = take 47 r.text; ok = true }
]

unfoldable pub note_second : Str → NatProbe → NatProbe
note_second bytes out = elim (accept_reply bytes) [
  | none ↦ out
  | some r ↦ record out {
    public_port2 = r.port;
    symmetric_known = true;
    symmetric = not (r.port == out.public_port);
  }
]

-- At most `n` attempts on the first port.
unfoldable pub first_attempts :
    ℕ → ℕ → Endpoint → List Str → NatProbe × List SocketCall → NatProbe × List SocketCall
first_attempts zero s dest replies r = r
first_attempts (suc n) s dest replies (out, calls) =
    let more =
      first_attempts n s dest (later_replies replies)
        (note_first (next_reply replies) out, calls ++ send_to s dest probe_magic ∷ []) in
    if out.ok then (out, calls) else more

-- At most `n` attempts on the second port.
unfoldable pub second_attempts :
    ℕ → ℕ → Endpoint → List Str → NatProbe × List SocketCall → NatProbe × List SocketCall
second_attempts zero s dest replies r = r
second_attempts (suc n) s dest replies (out, calls) =
    let more =
      second_attempts n s dest (later_replies replies)
        (note_second (next_reply replies) out, calls ++ send_to s dest probe_magic ∷ []) in
    if out.symmetric_known then (out, calls) else more

pub record ProbeResult : Type 0 where
  pub succeeded : Bool
  pub out : NatProbe
  pub calls : List SocketCall

-- The probe behind the first attempts.
unfoldable pub finish_probe : IpAddress → ℕ → List Str → NatProbe × List SocketCall → ProbeResult
finish_probe server s replies (out, calls) =
    let (out', calls') = second_attempts 2 s (port_above server 2) replies (out, calls) in
    if out.ok
    then record {
      succeeded = true;
      out = record out' { sock = some s };
      calls = calls' ++ set_non_blocking s ∷ [];
    }
    else record { succeeded = false; out = out; calls = calls ++ close_socket s ∷ [] }

-- Net_ProbeGgpoPort
unfoldable pub probe_ggpo_port : IpAddress → ℕ → Sockets → NatProbe → ProbeResult
probe_ggpo_port server local_port io old =
    let out : NatProbe = record old { ok = false; sock = none } in
    if server.ipv4 == 0
    then record { succeeded = false; out = out; calls = [] }
    else elim io.socket [
      | none ↦ record { succeeded = false; out = out; calls = [] }
      | some s ↦
          if io.is_bound
          then finish_probe server s io.replies2 (
              first_attempts 3 s (port_above server 1) io.replies1
                (out, bind_port s local_port ∷ []))
          else record {
            succeeded = false;
            out = out;
            calls = bind_port s local_port ∷ close_socket s ∷ [];
          }
    ]

-- Net_ProbeKeepalive, without the reads that drain the socket.
unfoldable pub probe_keepalive : IpAddress → NatProbe → List SocketCall
probe_keepalive server p = elim p.sock [
  | none ↦ []
  | some s ↦ if p.ok then send_to s (port_above server 1) probe_magic ∷ [] else []
]

-- Net_ProbeClose
unfoldable pub probe_close : NatProbe → NatProbe × List SocketCall
probe_close p = elim p.sock [
  | none ↦ (record p { ok = false }, [])
  | some s ↦ (record p { ok = false; sock = none }, close_socket s ∷ [])
]
