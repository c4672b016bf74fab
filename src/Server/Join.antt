-- ===== src/Server/Join.antt =====
-- MT_SESSION_HELLO and MT_SESSION_JOINREQ in SessionServer::Step of
-- src/session/sf4e__SessionServer.cxx: registration, seating, and the takeover of a seat by a game
-- process that presents a one-shot token.
pub mod Handoff
pub mod Seat
pub mod Register
use sf4_rollback_gui.Prelude.{
  ℕ, suc, ◌+◌, Bool, true, false, not, ◌&&◌, ◌||◌, List, [], ◌∷◌, ◌++◌, Option, none, some, Str,
  is_empty, get_elem?, set, length, ltb, leb, ◌==◌, if◌then◌else◌, sub64, str_eqb, to_string,
}
use sf4_rollback_gui.Prelude.Map
use sf4_rollback_gui.Prelude.Map.{Map, nat_key, str_key}
use sf4_rollback_gui.Protocol.{
  ConnectionId, MemberData, lobby_id_eqb, null_lobby_id, is_all_ready, SessionJoinRequest, PeerAddr,
  Packet, JoinResult, hash_invalid, handoff_invalid, request_invalid, server_full, name_taken,
  no_such_lobby, already_in_lobby, lobby_full, hello_resp,
}
use sf4_rollback_gui.Registry.{Lobby, LobbyMember, PendingHandoff, is_full}
use sf4_rollback_gui.Server.State.{
  Server, Peer, fresh_peer, MatchForensic, respond, respond_null_lobby_update, respond_join_reject,
  find_peer, put_peer, find_lobby, put_lobby, default_key,
}
use sf4_rollback_gui.Server.Seats.{seat_in_lobby}

-- The first message of a connection, if it is a hello.
unfoldable pub greet : Packet → Server → Server
greet p s =
    let cid : ConnectionId = record { host = s.identity; user = to_string p.conn } in
    respond p.conn (hello_resp cid s.version)
      (record s { cid_map = Map.insert p.conn cid s.cid_map })

unfoldable pub peer_ip : PeerAddr → Str
peer_ip a = if a.is_local_host then [] else a.text

abbrev pub handoff_ttl_ms : ℕ
handoff_ttl_ms = 60000

-- The first pending token that matches is erased; its seat counts while the token has not expired.
unfoldable pub redeem : Str → ℕ → List PendingHandoff → Option ℕ × List PendingHandoff
redeem token now [] = (none, [])
redeem token now (h ∷ hs) =
    let rest = redeem token now hs in
    if str_eqb h.token token
    then (if leb (sub64 now h.issued_at_ms) handoff_ttl_ms then some h.seat else none, hs)
    else (rest.0, h ∷ rest.1)

-- The connection that held the seat loses its lobby, unless it is the one that takes over.
unfoldable pub release_old : ℕ → ℕ → Server → Server
release_old old_conn conn s = elim (find_peer old_conn s) [
  | none ↦ s
  | some p ↦
      if old_conn == conn
      then s
      else respond_null_lobby_update old_conn (put_peer old_conn (record p { lobby_key = [] }) s)
]

-- Two members and no token left: the match is between two game processes.
unfoldable pub open_forensic : ℕ → Lobby → Server → Server
open_forensic now l s = elim l.members [
  | [] ↦ s
  | a ∷ rest ↦ elim rest [
    | [] ↦ s
    | b ∷ more ↦
        if is_empty l.pending_handoffs
        then record s {
          match_forensics =
              Map.insert l.id.key
                (record {
                  game_conns = record { p1 = a.conn; p2 = b.conn };
                  names = record { p1 = a.data_of.name; p2 = b.data_of.name };
                  second_handoff_at_ms = now;
                  game_conns_dead = 0;
                  saw_battle_ended = false;
                })
                s.match_forensics;
        }
        else s
  ]
]

unfoldable pub take_over : ConnectionId → Packet → SessionJoinRequest → LobbyMember → LobbyMember
take_over cid p r m = record {
  conn = p.conn;
  data_of = record (m.data_of) { conn_id = cid; ip = peer_ip p.addr; port = r.port; flags = 0 };
}

unfoldable pub game_peer : ConnectionId → Packet → SessionJoinRequest → Lobby → LobbyMember → Peer
game_peer cid p r l m =
    let peer = fresh_peer (record {
      conn_id = cid;
      name = m.data_of.name;
      ip = peer_ip p.addr;
      port = r.port;
      flags = 0;
    }) in
    record peer { lobby_key = l.id.key; nat_flags = r.nat_flags }

-- The lobby with the seat swapped over.
unfoldable pub swap_seat :
    ConnectionId → Packet → SessionJoinRequest → ℕ → LobbyMember → Lobby → Lobby
swap_seat cid p r seat m l = record l {
  members = set l.members seat (take_over cid p r m);
  dirty = true;
  pending_all_ready_sends =
      if is_all_ready l.match_data
      then l.pending_all_ready_sends ++ p.conn ∷ []
      else l.pending_all_ready_sends;
}

unfoldable pub take_seat :
    ConnectionId → Packet → SessionJoinRequest → ℕ → LobbyMember → Lobby → Server → Server
take_seat cid p r seat m l s =
    let swapped = swap_seat cid p r seat m l in
    let registered = put_peer p.conn (game_peer cid p r l m) s in
    let released = release_old m.conn p.conn registered in
    open_forensic p.now_ms swapped (put_lobby r.lobby.key swapped released)

unfoldable pub hash_mismatch : Server → Str → Bool
hash_mismatch s hash = not (is_empty s.sidecar_hash) && not (str_eqb hash s.sidecar_hash)

-- The seat that the token stands for, if it is still there.
unfoldable pub claim_seat :
    ConnectionId → Packet → SessionJoinRequest → Option ℕ → Lobby → Server → Server
claim_seat cid p r none l s = respond_join_reject p.conn handoff_invalid s
claim_seat cid p r (some i) l s = elim (get_elem? l.members i) [
  | none ↦ respond_join_reject p.conn handoff_invalid s
  | some m ↦ take_seat cid p r i m l s
]

unfoldable pub handle_handoff : ConnectionId → Packet → SessionJoinRequest → Server → Server
handle_handoff cid p r s =
    if hash_mismatch s r.sidecar_hash
    then respond_join_reject p.conn hash_invalid s
    else elim (find_lobby r.lobby.key s) [
      | none ↦ respond_join_reject p.conn handoff_invalid s
      | some l ↦
          let (seat, left) = redeem r.handoff p.now_ms l.pending_handoffs in
          let l' = record l { pending_handoffs = left } in
          claim_seat cid p r seat l' (put_lobby r.lobby.key l' s)
    ]

unfoldable pub is_name_taken : Str → Map ℕ Peer → Bool
is_name_taken name [] = false
is_name_taken name ((conn, peer) ∷ rest) = str_eqb peer.data_of.name name || is_name_taken name rest

-- Why a connection may not register, in the order of the checks.
unfoldable pub registration_error : SessionJoinRequest → Server → Option JoinResult
registration_error r s =
    if not (s.max_peers == 0) && leb s.max_peers (length s.peers)
    then some server_full
    else if not (is_empty r.sidecar_hash) && hash_mismatch s r.sidecar_hash
    then some hash_invalid
    else if is_empty r.username
    then some request_invalid
    else if is_name_taken r.username s.peers
    then some name_taken
    else none

unfoldable pub new_peer : ConnectionId → Packet → SessionJoinRequest → Peer
new_peer cid p r =
    fresh_peer
      (record { conn_id = cid; name = r.username; ip = peer_ip p.addr; port = r.port; flags = 0 })

unfoldable pub seat_or_reject : ℕ → Peer → Str → Server → Server
seat_or_reject conn peer key s = elim (find_lobby key s) [
  | none ↦ s
  | some l ↦
      if not (is_empty peer.lobby_key)
      then respond_join_reject conn already_in_lobby s
      else if is_full l
      then respond_join_reject conn lobby_full s
      else seat_in_lobby conn key s
]

unfoldable pub choose_lobby : Packet → SessionJoinRequest → Peer → Server → Server
choose_lobby p r peer s =
    if lobby_id_eqb r.lobby null_lobby_id
    then elim (default_key s) [
      | none ↦ respond_null_lobby_update p.conn s
      | some key ↦ seat_or_reject p.conn peer key s
    ]
    else elim (find_lobby r.lobby.key s) [
      | none ↦ respond_join_reject p.conn no_such_lobby s
      | some l ↦ seat_or_reject p.conn peer r.lobby.key s
    ]

unfoldable pub handle_register : ConnectionId → Packet → SessionJoinRequest → Server → Server
handle_register cid p r s = elim (find_peer p.conn s) [
  | some peer ↦ choose_lobby p r peer s
  | none ↦ elim (registration_error r s) [
    | some e ↦ respond_join_reject p.conn e s
    | none ↦ choose_lobby p r (new_peer cid p r) (put_peer p.conn (new_peer cid p r) s)
  ]
]

unfoldable pub handle_join : ConnectionId → Packet → Option SessionJoinRequest → Server → Server
handle_join cid p none s = respond_join_reject p.conn request_invalid s
handle_join cid p (some r) s =
    if is_empty r.handoff then handle_register cid p r s else handle_handoff cid p r s
