-- ===== src/Server/Seats.antt =====
-- SeatInLobby, RemoveFromLobby, CreatePairLobby and HandleResults of
-- src/session/sf4e__SessionServer.cxx: who sits where.
pub mod Rotation
pub mod Pairs
pub mod Leaver
use sf4_rollback_gui.Prelude.{
  ℕ, suc, ◌≡◌, Bool, true, false, not, ◌&&◌, List, [], ◌∷◌, ◌++◌, Option, none, some, ℤ, pos,
  negsuc, Str, is_empty, get_elem?, remove_at, ◌==◌, if◌then◌else◌,
}
use sf4_rollback_gui.Prelude.Map
use sf4_rollback_gui.Prelude.Map.{str_key}
use sf4_rollback_gui.Protocol.{cleared_match}
use sf4_rollback_gui.Registry.{Lobby, LobbyMember, clear_handoffs, create, remove}
use sf4_rollback_gui.Server.State.{
  Server, Peer, peer_at, find_peer, put_peer, find_lobby, put_lobby,
}

unfoldable pub seated_peer : Str → Peer → Peer
seated_peer key p = record p {
  lobby_key = key;
  looking_for_match = false;
  looking_since_ms = 0;
  challenge_target = [];
  challenge_sent_at_ms = 0;
}

unfoldable pub add_member : ℕ → Peer → Lobby → Lobby
add_member conn p l = record l {
  members = l.members ++ record { data_of = p.data_of; conn = conn } ∷ [];
  dirty = true;
}

-- The caller's `Lobby&` is the lobby under `key`, so it is there.
unfoldable pub seat_in_lobby : ℕ → Str → Server → Server
seat_in_lobby conn key s = elim (find_lobby key s) [
  | none ↦ s
  | some l ↦
      put_peer conn (seated_peer l.id.key (peer_at conn s))
        (put_lobby key (add_member conn (peer_at conn s) l) s)
]

-- The first member with the connection is erased.
unfoldable pub erase_member : ℕ → List LobbyMember → List LobbyMember
erase_member conn [] = []
erase_member conn (m ∷ ms) = if m.conn == conn then ms else m ∷ erase_member conn ms

unfoldable pub clear_match : Lobby → Lobby
clear_match l = record l { match_data = cleared_match }

-- The lobby after the member has left: gone, or with its match setup invalidated.
unfoldable pub vacate : ℕ → Str → Lobby → Server → Server
vacate conn key l s =
    let left = record l { members = erase_member conn l.members } in
    if is_empty left.members && not left.persistent
    then record s {
      match_forensics = Map.erase key s.match_forensics;
      registry = remove key s.registry;
    }
    else put_lobby key (record (clear_handoffs (clear_match left)) { dirty = true }) s

unfoldable pub remove_from_lobby : ℕ → Server → Server
remove_from_lobby conn s = elim (find_peer conn s) [
  | none ↦ s
  | some p ↦
      if is_empty p.lobby_key
      then s
      else let freed = put_peer conn (record p { lobby_key = [] }) s in
        elim (find_lobby p.lobby_key freed) [
          | none ↦ freed
          | some l ↦ vacate conn p.lobby_key l freed
        ]
]

-- CreatePairLobby, to the new lobby's key.
unfoldable pub create_pair_lobby : Str → ℕ → ℕ → Server → Str × Server
create_pair_lobby display_name a b s =
    let (key, registry) =
      create
        (record {
          display_name = display_name;
          edition_select = s.match_edition_select;
          round_count = s.match_round_count;
          round_time = s.match_round_time;
          capacity = 2;
          persistent = false;
          unlisted = true;
        })
        s.registry in
    (key, seat_in_lobby b key (seat_in_lobby a key (record s { registry = registry })))

-- The loser goes to the end of the queue.
unfoldable pub rotate : ℕ → List LobbyMember → List LobbyMember
rotate i ms = elim (get_elem? ms i) [ none ↦ ms | some loser ↦ remove_at (ms ++ loser ∷ []) i ]

-- HandleResults, with whether push_back has to reallocate the members. The iterator to the loser is then
-- invalid, and its use in `erase` is undefined: `none`.
unfoldable pub handle_results : Bool → ℤ → Lobby → Option Lobby
handle_results reallocates (negsuc n) l = some l
handle_results reallocates (pos i) l = elim (get_elem? l.members i) [
  | none ↦ some l
  | some loser ↦
      if reallocates
      then none
      else some (clear_handoffs (clear_match (record l { members = rotate i l.members })))
]
