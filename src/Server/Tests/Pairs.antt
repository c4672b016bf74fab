-- ===== src/Server/Tests/Pairs.antt =====
-- Tests of the pairing of players and of the end of a connection.
use sf4_rollback_gui.Prelude.{◌≡◌, refl, [], ◌∷◌, none, some, lit, to_string, arith}
use sf4_rollback_gui.Prelude.Map
use sf4_rollback_gui.Prelude.Map.{str_key, nat_key}
use sf4_rollback_gui.Server.State.{Server, find_lobby}
use sf4_rollback_gui.Server.State.{Peer, fresh_peer, find_peer}
use sf4_rollback_gui.Server.Seats.{create_pair_lobby, seated_peer}
use sf4_rollback_gui.Server.Seats.Pairs.{pair_lobby, create_pair_lobby_lem}
use sf4_rollback_gui.Server.Connection.{drop_connection}
use sf4_rollback_gui.Server.Connection.Drop.{drop_connection-forgets}
use sf4_rollback_gui.Server.Tests.{peer_for, ann, bob, server}

-- The two players before they have a lobby.
abbrev lounging : Server
lounging = record (server) {
  peers = (7, fresh_peer ann.data_of) ∷ (8, fresh_peer bob.data_of) ∷ [];
}

create_pair_lobby_lem_test :
    (find_lobby (create_pair_lobby (lit "Quick match") 7 8 lounging).0 lounging ≡ none)
    × (find_lobby
          (create_pair_lobby (lit "Quick match") 7 8 lounging).0
          (create_pair_lobby (lit "Quick match") 7 8 lounging).1
        ≡ some (
            pair_lobby
              (lit "Quick match")
              7
              8
              (fresh_peer ann.data_of)
              (fresh_peer bob.data_of)
              lounging))
    × (find_peer 7 (create_pair_lobby (lit "Quick match") 7 8 lounging).1
        ≡ some (
            seated_peer
              (create_pair_lobby (lit "Quick match") 7 8 lounging).0
              (fresh_peer ann.data_of)))
    × (find_peer 8 (create_pair_lobby (lit "Quick match") 7 8 lounging).1
        ≡ some (
            seated_peer
              (create_pair_lobby (lit "Quick match") 7 8 lounging).0
              (fresh_peer bob.data_of)))
unfolding find_peer Map.find to_string
create_pair_lobby_lem_test =
    create_pair_lobby_lem (lit "Quick match") 7 8 (fresh_peer ann.data_of) (fresh_peer bob.data_of)
      lounging ((1, refl, omega arith), tt) (λ e. absurd (omega (arith, e))) refl refl

drop_connection-forgets_example :
    (find_peer 7 (drop_connection 7 3000 server) ≡ none)
    × (Map.find 7 (drop_connection 7 3000 server).cid_map ≡ none)
    × ((q : Peer) × (find_peer 8 (drop_connection 7 3000 server) ≡ some q))
    × (Map.find 8 (drop_connection 7 3000 server).cid_map ≡ Map.find 8 server.cid_map)
unfolding find_peer Map.find
drop_connection-forgets_example =
    drop_connection-forgets 7 3000 8 (peer_for bob) server (λ e. absurd (omega (arith, e))) refl
