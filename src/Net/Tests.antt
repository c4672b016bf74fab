-- ===== src/Net/Tests.antt =====
-- Runs of src/session/sf4e__Resolve.cxx at concrete inputs.
use sf4_rollback_gui.Prelude.{
  ℕ, ◌≡◌, ◌≤◌, ◌++◌, ◌||◌, ◌==◌, refl, true, false, [], ◌∷◌, none, some, Str, lit, to_string,
  is_empty, ltb, if◌then◌else◌, arith,
}
use sf4_rollback_gui.Server.State.{Endpoint, send_datagram, probe_socket}
use sf4_rollback_gui.Server.Relay.{answer_probe, relay_datagram, register_seat}
use sf4_rollback_gui.Server.Relay.Scan.{is_space}
use sf4_rollback_gui.Server.Tests.{server}
use sf4_rollback_gui.Client.State.{IpAddress}
use sf4_rollback_gui.Net.{
  new_probe, probe_magic, probe_ggpo_port, accept_reply, bind_port, send_to, close_socket,
}
use sf4_rollback_gui.Net.Learns.{answer_text}
use sf4_rollback_gui.Net.Probe.{
  Verdict, working, EndsWith, probe_ggpo_port-learns, probe_ggpo_port-bounded,
}
use sf4_rollback_gui.Net.Resolve.{
  Resolver, resolve_host_port, resolve_name, relay_register, resolve_host_port-text,
  relay_register-registers,
}

-- 10.0.0.1:23456
abbrev lobby_address : IpAddress
lobby_address = record { ipv4 = 0x0a000001; port = 23456; is_local_host = false }

-- 93.184.216.34, as the two echo ports see it.
abbrev seen_first : Endpoint
seen_first = record { addr = 0x5db8d822; port = 40001 }

abbrev seen_second : Endpoint
seen_second = record { addr = 0x5db8d822; port = 40002 }

probe_ggpo_port-learns_example :
    Verdict 5 seen_first seen_second new_probe (
      probe_ggpo_port lobby_address 23457
        (working 5 (lit "noise" ∷ answer_text seen_first ∷ []) (answer_text seen_second ∷ []))
        new_probe)
    × ((answer_probe 0 (record { sender = seen_first; bytes = probe_magic }) server).net
        ≡ server.net ++ send_datagram (probe_socket 0) seen_first (answer_text seen_first) ∷ [])
    × ((answer_probe 1 (record { sender = seen_second; bytes = probe_magic }) server).net
        ≡ server.net ++ send_datagram (probe_socket 1) seen_second (answer_text seen_second) ∷ [])
unfolding accept_reply
probe_ggpo_port-learns_example =
    probe_ggpo_port-learns lobby_address 23457 5 seen_first seen_second (lit "noise" ∷ []) [] [] []
      new_probe server refl (omega arith, omega arith) (omega arith, omega arith) (refl, tt)
      (omega arith) tt (omega arith)

probe_ggpo_port-bounded_example :
    (k : ℕ) × (m : ℕ) × (k ≤ 3)
    × (m ≤ 2)
    × EndsWith lobby_address 23457 5 k m
        (probe_ggpo_port lobby_address 23457 (working 5 (lit "noise" ∷ []) []) new_probe)
probe_ggpo_port-bounded_example =
    probe_ggpo_port-bounded lobby_address 23457 5 (lit "noise" ∷ []) [] new_probe refl

-- Every literal address is the lobby's, and every name is looked up to 10.0.0.2.
abbrev names_only : Resolver
names_only = record {
  parse_string = λ s. none;
  look_up = λ s. some 0x0a000002;
  out_of_int = λ n. n;
}

abbrev literals : Resolver
literals = record {
  parse_string = λ s. some lobby_address;
  look_up = λ s. none;
  out_of_int = λ n. n;
}

resolve_host_port-text_example :
    resolve_host_port names_only (lit "lobby.example" ++ b':' ∷ to_string 23456) ≡ (
      if is_empty (lit "lobby.example") || (23456 == 0 || ltb 65535 23456)
      then none
      else resolve_name names_only (lit "lobby.example") 23456)
resolve_host_port-text_example =
    resolve_host_port-text names_only (lit "lobby.example") 23456 (omega arith) refl

relay_register-registers_example :
    (text : Str) × (relay_register literals
        (some 5)
        true
        []
        (lit "10.0.0.1:23456")
        23457
        (lit "17")
        1
      ≡ (
        true,
        bind_port 5 23457
            ∷ send_to 5 (record { addr = 0x0a000001; port = 23456 }) text
            ∷ send_to 5 (record { addr = 0x0a000001; port = 23456 }) text
            ∷ send_to 5 (record { addr = 0x0a000001; port = 23456 }) text
            ∷ send_to 5 (record { addr = 0x0a000001; port = 23456 }) text
            ∷ close_socket 5
            ∷ [],
      ))
    × (relay_datagram 1000 (record { sender = seen_first; bytes = text }) server
        ≡ some (register_seat 1000 (lit "17") 1 seen_first server))
unfolding is_space
relay_register-registers_example =
    relay_register-registers literals 5 23457 [] (lit "10.0.0.1:23456") (lit "17") 1 lobby_address
      1000 seen_first server refl refl
      (
        ((refl, λ e. absurd (omega (arith, e))), ((refl, λ e. absurd (omega (arith, e))), tt)),
        omega arith,
        omega arith,
      )
      (omega arith)
