-- ===== src/Server/Tests/Lobbies.antt =====
-- Tests of the lobbies' invariant, of new keys, and of the memory of failed connections.
use sf4_rollback_gui.Prelude.{
  ltb, if◌then◌else◌, ℕ, zero, suc, ◌+◌, ◌*◌, ◌≤◌, ◌<◌, ◌≡◌, ◌≢◌, refl, ◌⊎◌, inl, inr, ◌↔◌, Bool,
  true, false, List, [], ◌∷◌, none, some, pos, ℤ, Str, lit, str_eqb, str_ltb, str_ne, sub64,
  to_string, All, length, arith, set, get_elem?, remove_at, ap,
}
use sf4_rollback_gui.Prelude.Map
use sf4_rollback_gui.Prelude.Map.{str_key, nat_key}
use sf4_rollback_gui.Protocol.{null_lobby_id, hello, join_req, lobby_create, typed, lobby_id_eqb}
use sf4_rollback_gui.Registry.{
  Lobby, LobbySettings, LobbyRegistry, empty_registry, create, find_by_key, lobby_at, configure,
  is_full, to_lobby_data,
}
use sf4_rollback_gui.Registry.Create.{KeyBelow, new_lobby, create_fresh}
use sf4_rollback_gui.Server.State.{Server, init, init_with_default, find_lobby, MatchForensic}
use sf4_rollback_gui.Server.Matchmaking.{Sort}
use sf4_rollback_gui.Server.Forensics.{pair_key, note_seat_death, needs_relay_fallback}
use sf4_rollback_gui.Server.Forensics.Pairs.{Free, pair_key_inj}
use sf4_rollback_gui.Server.Forensics.Memory.{fallback_pairs_bound, died_young_relayed}
use sf4_rollback_gui.Server.Step.{Env, Input}
use sf4_rollback_gui.Server.Life.{Event, polls, run}
use sf4_rollback_gui.Server.Sound.{IsSound, LobbyOk}
use sf4_rollback_gui.Server.Sound.Run.{empty-IsSound, run_lobbies, init-IsSound}
use sf4_rollback_gui.Server.State.{Peer, fresh_peer, find_peer}
use sf4_rollback_gui.Server.Seats.{create_pair_lobby, seated_peer}
use sf4_rollback_gui.Server.Matchmaking.{pair_queue}
use sf4_rollback_gui.Server.Tests.{ann, bob, server, packet, plain_json}

init-IsSound_test :
    IsSound (init (lit "10.0.0.1:2346") [] (lit "1.0")).registry
    × IsSound
        (init_with_default
          (lit "10.0.0.1:2346")
          []
          (lit "1.0")
          true
          (pos 3)
          (record { fractional = 0; integral = pos 99 })).registry
init-IsSound_test =
    init-IsSound (lit "10.0.0.1:2346") [] (lit "1.0") true (pos 3)
      (record { fractional = 0; integral = pos 99 })

abbrev settings : LobbySettings
settings = record {
  display_name = lit "ann's lobby";
  edition_select = true;
  round_count = pos 3;
  round_time = record { fractional = 0; integral = pos 99 };
  capacity = 2;
  persistent = false;
  unlisted = false;
}

create_fresh_example :
    (find_by_key (create settings (empty_registry (lit "h"))).0 (empty_registry (lit "h")) ≡ none)
    × (find_by_key
          (create settings (empty_registry (lit "h"))).0
          (create settings (empty_registry (lit "h"))).1
        ≡ some (new_lobby settings (empty_registry (lit "h"))))
    × (find_by_key (lit "x") (create settings (empty_registry (lit "h"))).1
        ≡ find_by_key (lit "x") (empty_registry (lit "h")))
    × All
        (KeyBelow (create settings (empty_registry (lit "h"))).1.next_key)
        (create settings (empty_registry (lit "h"))).1.lobbies
unfolding empty_registry create to_string str_eqb
create_fresh_example =
    create_fresh settings (empty_registry (lit "h")) (lit "x") tt
      (str_ne (lit "x") (create settings (empty_registry (lit "h"))).0 refl)

ann_Free : Free (lit "ann")
ann_Free = (
  λ e. absurd (omega (arith, e)),
  (λ e. absurd (omega (arith, e)), (λ e. absurd (omega (arith, e)), tt)),
)

bob_Free : Free (lit "bob")
bob_Free = (
  λ e. absurd (omega (arith, e)),
  (λ e. absurd (omega (arith, e)), (λ e. absurd (omega (arith, e)), tt)),
)

pair_key_inj_test : (pair_key (lit "ann") (lit "bob") ≡ pair_key (lit "bob") (lit "ann")) ↔ (
    ((lit "ann" ≡ lit "bob") × (lit "bob" ≡ lit "ann"))
    ⊎ ((lit "ann" ≡ lit "ann") × (lit "bob" ≡ lit "bob")))
pair_key_inj_test =
    pair_key_inj (lit "ann") (lit "bob") (lit "bob") (lit "ann")
      (ann_Free, bob_Free, bob_Free, ann_Free)

-- The match of ann and bob between the game connections 7 and 8.
abbrev record_of_duel : MatchForensic
record_of_duel = record {
  game_conns = record { p1 = 7; p2 = 8 };
  names = record { p1 = lit "ann"; p2 = lit "bob" };
  second_handoff_at_ms = 1000;
  game_conns_dead = 0;
  saw_battle_ended = false;
}

abbrev watched : Server
watched = record (server) { match_forensics = (lit "1", record_of_duel) ∷ [] }

fallback_pairs_bound_example :
    (length (note_seat_death 7 (lit "1") 2000 watched).relay_fallback_pairs ≤ 256)
    × (length (needs_relay_fallback (ann ∷ bob ∷ []) 2000 watched).1.relay_fallback_pairs ≤ 256)
fallback_pairs_bound_example =
    fallback_pairs_bound 7 (lit "1") (ann ∷ bob ∷ []) 2000 watched (omega arith)

died_young_relayed_example :
    (needs_relay_fallback
      (bob ∷ ann ∷ [])
      90000
      (note_seat_death 8 (lit "1") 70000 (note_seat_death 7 (lit "1") 60000 watched))).0
    ≡ true
unfolding Map.find str_eqb sub64
died_young_relayed_example =
    died_young_relayed (lit "1") record_of_duel 7 8 60000 70000 90000 bob ann [] watched
      (record { conns = inl refl; none_dead = refl; no_battle = refl }) refl refl (omega arith)
      (inr (refl, refl)) (omega arith)

abbrev place : (ℕ → ℕ) → ℕ → List ℕ → List ℕ
place time x [] = x ∷ []
place time x (y ∷ ys) =
    let rest = place time x ys in if ltb (time y) (time x) then y ∷ rest else x ∷ y ∷ ys

abbrev insertion_sort : Sort
insertion_sort time [] = []
insertion_sort time (x ∷ xs) = place time x (insertion_sort time xs)

abbrev env : Env
env = record {
  token_gen = λ n. n * 17;
  seed_gen = λ n. n;
  sort = insertion_sort;
  json = plain_json;
  reallocates = λ p. false;
}

-- A connection says hello, registers as ann, and makes a lobby.
abbrev first_poll : Input
first_poll = record {
  probes1 = [];
  probes2 = [];
  relayed = [];
  messages = some (
      some (packet 7 (typed hello))
      ∷ some (
          packet 7 (
            typed (
              join_req (
                some (record {
                  sidecar_hash = [];
                  username = lit "ann";
                  port = 9000;
                  lobby = null_lobby_id;
                  handoff = [];
                  nat_flags = 0;
                })))))
      ∷ some (
          packet 7 (
            typed (
              lobby_create (
                some (record {
                  name = [];
                  edition_select = true;
                  round_count = pos 3;
                  round_time = record { fractional = 0; integral = pos 99 };
                })))))
      ∷ []);
  now_ms = 1000;
}

abbrev started : Server
started = init (lit "10.0.0.1:2346") [] (lit "1.0")

abbrev made : Lobby
made = record (new_lobby settings (empty_registry (lit "10.0.0.1:2346"))) {
  members =
      record {
        conn = 7;
        data_of = record {
          conn_id = record { host = lit "10.0.0.1:2346"; user = lit "7" };
          name = lit "ann";
          ip = lit "10.0.0.9";
          port = 9000;
          flags = 0;
        };
      }
      ∷ [];
}

found_made : find_lobby (lit "1") (run env (polls first_poll ∷ []) started) ≡ some made
unfolding run find_lobby find_by_key Map.find sf4_rollback_gui.Server.Life.apply
    sf4_rollback_gui.Server.Step.step sf4_rollback_gui.Server.Step.handle_packets
    sf4_rollback_gui.Server.Step.finish sf4_rollback_gui.Server.Step.handle_packet
    sf4_rollback_gui.Server.Step.handle_body sf4_rollback_gui.Server.Step.step_sockets
    sf4_rollback_gui.Server.Step.handle_unknown sf4_rollback_gui.Server.Step.dispatch
    sf4_rollback_gui.Server.Step.handle_registered sf4_rollback_gui.Server.Flush.flush
    sf4_rollback_gui.Server.Flush.flush_keys sf4_rollback_gui.Server.Flush.flush_lobby
    sf4_rollback_gui.Server.Flush.flush_update sf4_rollback_gui.Server.Flush.flush_all_ready
    sf4_rollback_gui.Server.Flush.flush_pending_sends sf4_rollback_gui.Server.Flush.flush_synced
    sf4_rollback_gui.Server.Flush.relay_endpoint sf4_rollback_gui.Server.Flush.needs_relay
    sf4_rollback_gui.Server.Flush.issue_tokens sf4_rollback_gui.Server.Flush.send_all_ready_to
    sf4_rollback_gui.Server.Matchmaking.step_matchmaking
    sf4_rollback_gui.Server.Matchmaking.pair_queue sf4_rollback_gui.Server.Matchmaking.match_queue
    sf4_rollback_gui.Server.Matchmaking.expire_challenges
    sf4_rollback_gui.Server.Matchmaking.is_expired sf4_rollback_gui.Server.Relay.step_relay
    sf4_rollback_gui.Server.Relay.step_probe sf4_rollback_gui.Server.Relay.relay_loop
    sf4_rollback_gui.Server.Relay.prune_pairs sf4_rollback_gui.Server.Relay.probe_loop
    sf4_rollback_gui.Server.Join.greet sf4_rollback_gui.Server.Join.handle_join
    sf4_rollback_gui.Server.Join.handle_register sf4_rollback_gui.Server.Join.registration_error
    sf4_rollback_gui.Server.Join.new_peer sf4_rollback_gui.Server.Join.choose_lobby
    sf4_rollback_gui.Server.Join.hash_mismatch sf4_rollback_gui.Server.Join.is_name_taken
    sf4_rollback_gui.Server.Join.peer_ip sf4_rollback_gui.Server.Join.seat_or_reject
    sf4_rollback_gui.Server.Lobbies.handle_lobby_create sf4_rollback_gui.Server.Seats.seat_in_lobby
    sf4_rollback_gui.Server.Seats.seated_peer sf4_rollback_gui.Server.Seats.add_member
    sf4_rollback_gui.Server.State.init sf4_rollback_gui.Server.State.respond
    sf4_rollback_gui.Server.State.respond_null_lobby_update sf4_rollback_gui.Server.State.net_call
    sf4_rollback_gui.Server.State.broadcast_to_members sf4_rollback_gui.Server.State.find_peer
    sf4_rollback_gui.Server.State.peer_at sf4_rollback_gui.Server.State.put_peer
    sf4_rollback_gui.Server.State.put_lobby sf4_rollback_gui.Server.State.default_key
    sf4_rollback_gui.Server.State.has_ended sf4_rollback_gui.Server.State.any_end
    sf4_rollback_gui.Server.State.is_end sf4_rollback_gui.Registry.create
    sf4_rollback_gui.Registry.lobby_at sf4_rollback_gui.Registry.configure
    sf4_rollback_gui.Registry.to_lobby_data sf4_rollback_gui.Registry.empty_registry
    sf4_rollback_gui.Registry.is_full sf4_rollback_gui.Registry.clear_handoffs
    sf4_rollback_gui.Protocol.lobby_id_eqb sf4_rollback_gui.Prelude.Map.insert str_eqb to_string
    sf4_rollback_gui.Prelude.sub64 sf4_rollback_gui.Prelude.str_ltb
found_made = refl

started-IsSound : IsSound started.registry
unfolding init
started-IsSound = empty-IsSound (lit "10.0.0.1:2346")

run_lobbies_example :
    LobbyOk (lit "1", made)
    × KeyBelow (run env (polls first_poll ∷ []) started).registry.next_key (lit "1", made)
run_lobbies_example =
    run_lobbies env (polls first_poll ∷ []) started (lit "1") made started-IsSound found_made
