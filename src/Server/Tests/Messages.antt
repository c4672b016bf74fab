-- ===== src/Server/Tests/Messages.antt =====
-- Tests of chat and of the relay.
use sf4_rollback_gui.Prelude.{
  ◌≤◌, ◌≡◌, ◌≢◌, refl, [], ◌∷◌, some, lit, take, length, All, arith, is_empty, if◌then◌else◌, ap,
  to_string, str_eqb, str_ne, inr, get_elem?, ◌⊎◌, ℕ, true,
}
use sf4_rollback_gui.Prelude.Map.{nat_key, str_key}
use sf4_rollback_gui.Prelude.Map
use sf4_rollback_gui.Protocol.{ChatSend, non_json}
use sf4_rollback_gui.Server.State.{Server, Endpoint, put_peer}
use sf4_rollback_gui.Server.Chat.{is_rate_limited, stamp_chat, strip_loop, handle_chat_send}
use sf4_rollback_gui.Server.Chat.Text.{printable, strip_loop_lem}
use sf4_rollback_gui.Server.Chat.Rate.{at0, Spaced, accepted, accepted_rate}
use sf4_rollback_gui.Server.Chat.Delivery.{spoken, handle_chat_send_lem}
use sf4_rollback_gui.Server.Relay.{relay_datagram, register_seat}
use sf4_rollback_gui.Server.Relay.Scan.{is_space}
use sf4_rollback_gui.Server.Relay.Registration.{IsToken, registration_text, relay_datagram-register}
use sf4_rollback_gui.Server.Relay.Cross.{full_pair}
use sf4_rollback_gui.Protocol.{ForwardMessage, forwarded}
use sf4_rollback_gui.Registry.{Lobby, LobbyMember, find_by_key}
use sf4_rollback_gui.Server.State.{find_lobby, send_message}
use sf4_rollback_gui.Server.Chat.{handle_forward}
use sf4_rollback_gui.Server.Chat.Forward.{handle_forward-stays_inside, handle_forward-delivers}
use sf4_rollback_gui.Server.Tests.{plain_json, bob, duel, ann, peer_for, server, packet}

strip_loop_lem_example :
    (strip_loop [] (10 ∷ lit "hi") ≡ take 256 (printable (10 ∷ lit "hi")))
    × (length (strip_loop [] (10 ∷ lit "hi")) ≤ 256)
    × All (λ c. 0x20 ≤ c) (strip_loop [] (10 ∷ lit "hi"))
strip_loop_lem_example = strip_loop_lem (10 ∷ lit "hi")

accepted_rate_example :
    Spaced 0 0 0 0 0 (accepted (peer_for ann) (10 ∷ 20 ∷ 30 ∷ 40 ∷ 50 ∷ 60 ∷ 2010 ∷ []))
accepted_rate_example =
    accepted_rate (peer_for ann) (10 ∷ 20 ∷ 30 ∷ 40 ∷ 50 ∷ 60 ∷ 2010 ∷ []) (at0 refl refl)
      (ground arith)

abbrev greeting : ChatSend
greeting = record { channel = lit "lounge"; text = lit "hi" }

handle_chat_send_lem_example :
    handle_chat_send plain_json (packet 7 non_json) (some greeting) (peer_for ann) server ≡ (
      if is_rate_limited 1000 (peer_for ann)
      then server
      else let s' = put_peer 7 (stamp_chat 1000 (peer_for ann)) server in
        if is_empty (strip_loop [] greeting.text)
        then s'
        else spoken plain_json (packet 7 non_json) greeting (peer_for ann) s')
handle_chat_send_lem_example =
    handle_chat_send_lem plain_json (packet 7 non_json) greeting (peer_for ann) server

abbrev home : Endpoint
home = record { addr = 0x0a000002; port = 9000 }

abbrev away : Endpoint
away = record { addr = 0x0a000003; port = 9000 }

ab-IsToken : IsToken (lit "ab")
unfolding is_space
ab-IsToken = (
  ((refl, (λ e. absurd (omega (arith, e)))), ((refl, (λ e. absurd (omega (arith, e)))), tt)),
  omega arith,
  omega arith,
)

-- A server that relays another match.
abbrev busy : Server
busy = record (server) {
  relay_pairs =
      (
        lit "zz",
        full_pair (record { addr = 0x0a000007; port = 9000 })
            (record { addr = 0x0a000008; port = 9000 }) 4,
      )
      ∷ [];
}

relay_datagram-register_test :
    relay_datagram 5 (record { sender = home; bytes = registration_text (lit "ab") 1 }) server
    ≡ some (register_seat 5 (lit "ab") 1 home server)
relay_datagram-register_test =
    relay_datagram-register 5 (lit "ab") 1 home server ab-IsToken (omega arith)

abbrev bound_relay : Server
bound_relay = record (busy) { relay_bound = true }

-- ann's game talks to bob's.
abbrev to_bob : ForwardMessage
to_bob = record { src = ann.data_of.conn_id; dest = bob.data_of.conn_id }

handle_forward-stays_inside_example :
    (handle_forward plain_json (packet 7 non_json) (some to_bob) (peer_for ann) server ≡ server)
    ⊎ ((l : Lobby) × (i : ℕ) × (d : LobbyMember) × (find_lobby (lit "1") server ≡ some l)
        × (get_elem? l.members i ≡ some d)
        × (d.data_of.conn_id ≡ to_bob.dest)
        × (to_bob.dest.host ≡ lit "10.0.0.1:2346")
        × ((to_bob.src.host ≢ lit "10.0.0.1:2346") ⊎ (to_bob.src.user ≡ to_string 7))
        × (handle_forward plain_json (packet 7 non_json) (some to_bob) (peer_for ann) server
            ≡ record (server) { net = send_message d.conn (forwarded (lit "{}")) ∷ [] }))
handle_forward-stays_inside_example =
    handle_forward-stays_inside plain_json (packet 7 non_json) to_bob (peer_for ann) server

ann_ne_bob : ann.data_of.conn_id ≢ bob.data_of.conn_id
unfolding str_eqb
ann_ne_bob e = str_ne (lit "7") (lit "8") refl (ap (λ c. c.user) e)

handle_forward-delivers_example :
    handle_forward plain_json (packet 7 non_json) (some to_bob) (peer_for ann) server
    ≡ record (server) { net = send_message 8 (forwarded (lit "{}")) ∷ [] }
unfolding find_lobby find_by_key Map.find str_eqb to_string
handle_forward-delivers_example =
    handle_forward-delivers plain_json (packet 7 non_json) to_bob (peer_for ann) server duel 1 bob
      refl refl refl (ann_ne_bob, tt) refl (inr refl)
