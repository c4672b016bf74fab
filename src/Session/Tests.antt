-- ===== src/Session/Tests.antt =====
-- Conversations of a client and a server at concrete inputs, across
-- src/session/sf4e__SessionClient.cxx and src/session/sf4e__SessionServer.cxx.
use sf4_rollback_gui.Prelude.{◌≡◌, refl, true, false, [], ◌∷◌, some, pos, minus_one, lit, str_eqb}
use sf4_rollback_gui.Prelude.Map
use sf4_rollback_gui.Server.Battle.{playing_side}
use sf4_rollback_gui.Protocol.{untyped, ConnectionId}
use sf4_rollback_gui.Registry.{Lobby, to_lobby_data, find_by_key, member_index}
use sf4_rollback_gui.Server.State.{Server, find_lobby, find_peer}
use sf4_rollback_gui.Server.Step.{Env}
use sf4_rollback_gui.Server.Tests.{server, duel, ann, peer_for, packet, plain_json}
use sf4_rollback_gui.Client.Snapshots.{goes_on}
use sf4_rollback_gui.Client.Receive.{own_side, auto_join_request, handle_data_update}
use sf4_rollback_gui.Client.Tests.{libraries, ann_client}
use sf4_rollback_gui.Session.{to_server, to_client}
use sf4_rollback_gui.Session.Handshake.{greeted, answered, later, Met, handshake}
use sf4_rollback_gui.Session.Ready.{ready_client, ready_acknowledged}

abbrev env : Env
env = record {
  token_gen = λ n. n;
  seed_gen = λ n. n;
  sort = λ before q. q;
  json = plain_json;
  reallocates = λ p. false;
}

handshake_example :
    (to_client libraries 9
        (to_server env (packet 9 untyped) (greeted 3 ann_client) server)
        (greeted 3 ann_client)
      ≡ goes_on (answered (packet 9 untyped) server 3 ann_client))
    × Met libraries 9
        (auto_join_request ann_client)
        (answered (packet 9 untyped) server 3 ann_client)
        server
        (to_server env
          (later (packet 9 untyped) 6 1100 1700000001)
          (answered (packet 9 untyped) server 3 ann_client)
          (to_server env (packet 9 untyped) (greeted 3 ann_client) server))
unfolding Map.find find_peer
handshake_example =
    handshake env libraries (packet 9 untyped) 6 1100 1700000001 server 3 ann_client refl refl refl

abbrev ann_id : ConnectionId
ann_id = record { host = lit "10.0.0.1:2346"; user = lit "7" }

abbrev known : Server
known = record (server) { cid_map = (7, ann_id) ∷ [] }

ready_acknowledged_example :
    ((handle_data_update
        (to_lobby_data duel)
        duel.match_data
        (ready_client libraries ann_client)).outstanding_ready
      ≡ pos 5)
    × ((l' : Lobby) × (find_lobby
            (lit "1")
            (to_server env (packet 7 untyped) (ready_client libraries ann_client) known)
          ≡ some l')
        × (l'.dirty ≡ true)
        × ((handle_data_update
              (to_lobby_data l')
              (record (l'.match_data) { relay_endpoint = lit "10.0.0.1:2345" })
              (ready_client libraries ann_client)).outstanding_ready
            ≡ minus_one))
unfolding Map.find find_peer find_lobby find_by_key str_eqb playing_side member_index own_side
    to_lobby_data
ready_acknowledged_example =
    ready_acknowledged env libraries (packet 7 untyped) ann_client known ann_id (peer_for ann) duel
      0 (lit "10.0.0.1:2345") refl refl refl refl refl refl refl
