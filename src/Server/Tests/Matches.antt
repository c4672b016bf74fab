-- ===== src/Server/Tests/Matches.antt =====
-- Tests of the match cycle: handoffs, takeovers, readiness, rotation.
use sf4_rollback_gui.Prelude.{
  ℕ, true, ◌*◌, ◌≡◌, ◌≢◌, refl, false, List, [], ◌∷◌, ◌++◌, none, some, pos, Str, lit, str_eqb,
  str_ne, sub64, ◌≤◌, arith, get_elem?, ◌||◌, not, is_minus_one,
}
use sf4_rollback_gui.Prelude.Map
use sf4_rollback_gui.Prelude.Map.{str_key, nat_key}
use sf4_rollback_gui.Protocol.{
  SessionJoinRequest, ConnectionId, non_json, lobby_allready, match_handoff, side,
}
use sf4_rollback_gui.Registry.{Lobby, PendingHandoff, find_by_key}
use sf4_rollback_gui.Server.State.{find_lobby, find_peer, send_message}
use sf4_rollback_gui.Server.State.Sends.{sends}
use sf4_rollback_gui.Server.Tests.{ann, bob, duel, peer_for, server, packet}
use sf4_rollback_gui.Server.Join.{redeem, take_seat, take_over, game_peer}
use sf4_rollback_gui.Server.Join.Handoff.{redeem_once, redeem_seat}
use sf4_rollback_gui.Server.Join.Seat.{take_seat-hands_over}
use sf4_rollback_gui.Server.Flush.{handoff_token, flush_all_ready, hex, hex_digit}
use sf4_rollback_gui.Server.Flush.Handoffs.{flush_all_ready-hands_off}
use sf4_rollback_gui.Server.Battle.{ready_lobby, handle_battle_ended}
use sf4_rollback_gui.Server.Battle.Cycle.{ready_lobby-fires, reports, rematch_synced}
use sf4_rollback_gui.Server.Seats.{handle_results}
use sf4_rollback_gui.Server.Seats.Rotation.{Rotated, handle_results-rotates}

-- A generator that counts.
abbrev draws : ℕ → ℕ
draws n = n * 17

abbrev token0 : Str
token0 = handoff_token draws 0

abbrev token1 : Str
token1 = handoff_token draws 1

tokens_differ : token0 ≢ token1
unfolding handoff_token hex hex_digit str_eqb
tokens_differ = str_ne token0 token1 refl

found_duel : find_lobby (lit "1") server ≡ some duel
unfolding find_lobby find_by_key Map.find str_eqb
found_duel = refl

flush_all_ready-hands_off_example :
    ((flush_all_ready draws (lit "1") 5000 server).net
      ≡ sends (7 ∷ 8 ∷ []) lobby_allready
        ++ send_message 7 (match_handoff token0 duel.id)
          ∷ send_message 8 (match_handoff token1 duel.id)
          ∷ [])
    × ((l' : Lobby) × (find_lobby (lit "1") (flush_all_ready draws (lit "1") 5000 server) ≡ some l')
        × ((redeem token0 65000 l'.pending_handoffs).0 ≡ some 0)
        × ((redeem token1 65000 l'.pending_handoffs).0 ≡ some 1))
unfolding sub64
flush_all_ready-hands_off_example =
    flush_all_ready-hands_off draws (lit "1") 5000 65000 duel ann bob [] server found_duel refl refl
      tokens_differ (omega arith)

-- Two handoffs, as the all-ready round leaves them.
abbrev two_handoffs : List PendingHandoff
two_handoffs =
    record { token = lit "aa"; seat = 0; issued_at_ms = 5000 }
    ∷ record { token = lit "bb"; seat = 1; issued_at_ms = 5000 }
    ∷ []

redeem_once_example : (redeem (lit "bb") 7000 (redeem (lit "bb") 6000 two_handoffs).1).0 ≡ none
unfolding str_eqb
redeem_once_example =
    redeem_once (lit "bb") 6000 7000 two_handoffs
      ((str_ne (lit "bb") (lit "aa") refl, tt), (tt, tt))

redeem_seat_example :
    (h : PendingHandoff) × (i : ℕ) × (get_elem? two_handoffs i ≡ some h)
    × (h.token ≡ lit "bb")
    × (h.seat ≡ 1)
    × (sub64 6000 h.issued_at_ms ≤ 60000)
unfolding redeem str_eqb sub64
redeem_seat_example = redeem_seat (lit "bb") 6000 1 two_handoffs refl

-- The game process of bob, who is behind a NAT of his own.
abbrev request : SessionJoinRequest
request = record {
  sidecar_hash = [];
  username = [];
  port = 7000;
  lobby = duel.id;
  handoff = lit "bb";
  nat_flags = 1;
}

abbrev game_cid : ConnectionId
game_cid = record { host = lit "10.0.0.1:2346"; user = lit "9" }

found_bob : find_peer 8 server ≡ some (peer_for bob)
unfolding find_peer Map.find
found_bob = refl

take_seat-hands_over_example :
    ((l' : Lobby) × (find_lobby
          (lit "1")
          (take_seat game_cid (packet 9 non_json) request 1 bob duel server)
        ≡ some l')
      × (get_elem? l'.members 1 ≡ some (take_over game_cid (packet 9 non_json) request bob))
      × (get_elem? l'.members 0 ≡ some ann))
    × ((take_over game_cid (packet 9 non_json) request bob).conn ≡ 9)
    × ((take_over game_cid (packet 9 non_json) request bob).data_of.name ≡ lit "bob")
    × (find_peer 8 (take_seat game_cid (packet 9 non_json) request 1 bob duel server)
        ≡ some (record (peer_for bob) { lobby_key = [] }))
    × ((game_peer game_cid (packet 9 non_json) request duel bob).lobby_key ≡ lit "1")
    × ((game_peer game_cid (packet 9 non_json) request duel bob).data_of.name ≡ lit "bob")
unfolding find_peer Map.find
take_seat-hands_over_example =
    take_seat-hands_over game_cid (packet 9 non_json) request 1 0 8 bob duel server refl
      (λ e. absurd (omega (arith, e)))

ready_lobby-fires_test :
    (ready_lobby 1 5 (record duel { send_all_ready = false })).send_all_ready
    ≡ (false || not (is_minus_one (side 0 duel.match_data.ready_message_num)))
ready_lobby-fires_test =
    ready_lobby-fires 1 5 (record duel { send_all_ready = false }) (omega arith)

rematch_synced_example :
    (l' : Lobby) × (find_lobby (lit "1") (
        reports
          ((packet 8 non_json, peer_for bob)
            ∷ (packet 9 non_json, peer_for bob)
            ∷ (packet 7 non_json, peer_for ann)
            ∷ [])
          (handle_battle_ended (λ n. n) (packet 7 non_json) (peer_for ann) server))
      ≡ some l')
    × (l'.send_battle_synced ≡ true)
unfolding find_lobby find_by_key Map.find str_eqb
rematch_synced_example =
    rematch_synced (λ n. n) (packet 7 non_json) (peer_for ann)
      ((packet 8 non_json, peer_for bob)
        ∷ (packet 9 non_json, peer_for bob)
        ∷ (packet 7 non_json, peer_for ann)
        ∷ [])
      duel server refl (((λ e. absurd (omega (arith, e))), tt), (tt, tt)) (refl, (refl, (refl, tt)))

handle_results-rotates_example :
    Rotated duel ann 0 (handle_results false (pos 0) duel)
    × (handle_results true (pos 0) duel ≡ none)
handle_results-rotates_example = handle_results-rotates 0 duel ann refl
