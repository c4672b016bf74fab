-- ===== src/Server/Connection.antt =====
-- OnSteamNetConnectionStatusChanged, AddConnection and Close of
-- src/session/sf4e__SessionServer.cxx.
pub mod Drop
use sf4_rollback_gui.Prelude.{
  ℕ, Bool, false, not, ◌&&◌, [], ◌∷◌, none, some, Str, ◌==◌, if◌then◌else◌, str_eqb,
}
use sf4_rollback_gui.Prelude.Map
use sf4_rollback_gui.Prelude.Map.{Map, nat_key}
use sf4_rollback_gui.Protocol.{ConnectionId, offline}
use sf4_rollback_gui.Server.State.{
  Server, Peer, net_call, accept_connection, join_poll_group, leave_poll_group, close_connection,
  respond_challenge_result, find_peer, put_peer,
}
use sf4_rollback_gui.Server.Seats.{remove_from_lobby}
use sf4_rollback_gui.Server.Forensics.{note_seat_death}
use sf4_rollback_gui.Server.Challenge.{without_challenge}

-- The loop over the entries of `peers`: who challenged the leaver hears that it is offline.
unfoldable pub void_challenges : ℕ → Str → Map ℕ Peer → Server → Server
void_challenges leaver name [] s = s
void_challenges leaver name ((conn, p) ∷ rest) s = void_challenges leaver name rest (
    if not (conn == leaver) && str_eqb p.challenge_target name
    then put_peer conn (without_challenge p) (respond_challenge_result conn name offline s)
    else s)

unfoldable pub tell_challengers : ℕ → ℕ → Server → Server
tell_challengers conn now s = elim (find_peer conn s) [
  | none ↦ s
  | some p ↦ note_seat_death conn p.lobby_key now (void_challenges conn p.data_of.name s.peers s)
]

-- Erased from `peers` and `cidMap`.
unfoldable pub forget : ℕ → Server → Server
forget conn s = record s { peers = Map.erase conn s.peers; cid_map = Map.erase conn s.cid_map }

-- A connection that was open has closed or failed.
unfoldable pub drop_connection : ℕ → ℕ → Server → Server
drop_connection conn now s = net_call (close_connection conn) (
    net_call (leave_poll_group conn)
      (forget conn (remove_from_lobby conn (tell_challengers conn now s))))

-- The states of a connection that the callback tells apart; `was_connected` is the test on the old
-- state, `is_accepted` the result of AcceptConnection.
pub data StatusChange : Type 0 where
  closed : Bool → StatusChange
  connecting : Bool → StatusChange
  other_state : StatusChange

unfoldable pub on_status_changed : StatusChange → ℕ → ℕ → Server → Server
on_status_changed (closed was_connected) conn now s =
    if was_connected then drop_connection conn now s else s
on_status_changed (connecting is_accepted) conn now s =
    let asked = net_call (accept_connection conn) s in
    if is_accepted
    then net_call (join_poll_group conn) asked
    else net_call (close_connection conn) asked
on_status_changed other_state conn now s = s

-- AddConnection: the callback that it registers is `on_status_changed`.
unfoldable pub add_connection : ℕ → Server → Server
add_connection conn s = net_call (join_poll_group conn) s

unfoldable pub close_all : Map ℕ ConnectionId → Server → Server
close_all [] s = s
close_all ((conn, cid) ∷ rest) s =
    close_all rest (net_call (close_connection conn) (net_call (leave_poll_group conn) s))

unfoldable pub close : Server → Server
close s =
    let s' = close_all s.cid_map s in
    record s' {
      probe_bound = record { p1 = false; p2 = false };
      relay_bound = false;
      relay_pairs = [];
      cid_map = [];
      peers = [];
      registry = record (s'.registry) { lobbies = [] };
    }
