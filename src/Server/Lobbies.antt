-- ===== src/Server/Lobbies.antt =====
-- MT_LOBBY_CREATE, MT_LOBBY_LIST, MT_LOBBY_LEAVE and MT_PRESENCE_LIST in SessionServer::Step of
-- src/session/sf4e__SessionServer.cxx.
pub mod Presence
use sf4_rollback_gui.Prelude.{
  ℕ, suc, Bool, false, not, ◌&&◌, ◌||◌, List, [], ◌∷◌, ◌++◌, map, Option, none, some, Str, lit,
  is_empty, length, ltb, if◌then◌else◌,
}
use sf4_rollback_gui.Prelude.Map
use sf4_rollback_gui.Prelude.Map.{Map, str_key}
use sf4_rollback_gui.Protocol.{
  LobbyId, null_lobby_id, is_all_ready, battle_loaded_flag, LobbyCreate, LobbyListEntry,
  PresenceStatus, lounge, looking, in_lobby, in_match, PresenceEntry, Packet, request_invalid,
  already_in_lobby, join_ok, lobby_create_resp, lobby_list_resp, presence_list_resp,
}
use sf4_rollback_gui.Registry.{Lobby, LobbyMember, create}
use sf4_rollback_gui.Server.State.{Server, Peer, respond, respond_null_lobby_update, find_lobby}
use sf4_rollback_gui.Server.Seats.{seat_in_lobby, remove_from_lobby}

unfoldable pub handle_lobby_create : Packet → Option LobbyCreate → Peer → Server → Server
handle_lobby_create p none peer s =
    respond p.conn (lobby_create_resp request_invalid null_lobby_id) s
handle_lobby_create p (some r) peer s =
    if not (is_empty peer.lobby_key)
    then respond p.conn (lobby_create_resp already_in_lobby null_lobby_id) s
    else let (key, registry) =
        create
          (record {
            display_name = if is_empty r.name then peer.data_of.name ++ lit "'s lobby" else r.name;
            edition_select = r.edition_select;
            round_count = r.round_count;
            round_time = r.round_time;
            capacity = 2;
            persistent = false;
            unlisted = false;
          })
          s.registry in
      let id : LobbyId = record { host = s.registry.host_identity; key = key } in
      respond p.conn (lobby_create_resp join_ok id)
        (seat_in_lobby p.conn key (record s { registry = registry }))

-- `(int32_t)lobby.members.size()` and `(int32_t)lobby.capacity` are small.
unfoldable pub list_entry : Lobby → LobbyListEntry
list_entry l = record {
  id = l.id;
  name = l.display_name;
  player_count = length l.members;
  capacity = l.capacity;
  players = map (λ m. m.data_of.name) l.members;
}

unfoldable pub listing : Map Str Lobby → List LobbyListEntry
listing [] = []
listing ((key, l) ∷ rest) =
    let more = listing rest in if l.unlisted then more else list_entry l ∷ more

unfoldable pub handle_lobby_list : Packet → Server → Server
handle_lobby_list p s = respond p.conn (lobby_list_resp (listing s.registry.lobbies)) s

unfoldable pub handle_lobby_leave : Packet → Peer → Server → Server
handle_lobby_leave p peer s =
    if is_empty peer.lobby_key
    then s
    else respond_null_lobby_update p.conn (remove_from_lobby p.conn s)

unfoldable pub any_loaded : List LobbyMember → Bool
any_loaded [] = false
any_loaded (m ∷ ms) = battle_loaded_flag m.data_of.flags || any_loaded ms

-- A match is live from the moment both sides are ready, or while a battle is loaded.
unfoldable pub is_live : Lobby → Bool
is_live l = is_all_ready l.match_data || any_loaded l.members

unfoldable pub seated_status : Option Lobby → PresenceStatus
seated_status none = in_lobby
seated_status (some l) = if is_live l then in_match else in_lobby

unfoldable pub peer_status : Server → Peer → PresenceStatus
peer_status s p =
    if not (is_empty p.lobby_key)
    then seated_status (find_lobby p.lobby_key s)
    else if p.looking_for_match
    then looking
    else lounge

-- The values of the enumeration.
unfoldable pub rank : PresenceStatus → ℕ
rank lounge = 0
rank looking = 1
rank in_lobby = 2
rank in_match = 3

-- The higher status of a name stays.
unfoldable pub fold_status : Str → PresenceStatus → Map Str PresenceStatus → Map Str PresenceStatus
fold_status name status m = elim (Map.find name m) [
  | none ↦ Map.insert name status m
  | some old ↦ if ltb (rank old) (rank status) then Map.insert name status m else m
]

unfoldable pub statuses : Server → Map ℕ Peer → Map Str PresenceStatus → Map Str PresenceStatus
statuses s [] m = m
statuses s ((conn, p) ∷ rest) m = statuses s rest (fold_status p.data_of.name (peer_status s p) m)

unfoldable pub looking_count : Map ℕ Peer → ℕ
looking_count [] = 0
looking_count ((conn, p) ∷ rest) =
    let more = looking_count rest in
    if is_empty p.lobby_key && p.looking_for_match then suc more else more

unfoldable pub presence_entries : Map Str PresenceStatus → List PresenceEntry
presence_entries = map (λ e. record { name = e.0; status = e.1 })

unfoldable pub handle_presence_list : Packet → Server → Server
handle_presence_list p s =
    respond p.conn
      (presence_list_resp (presence_entries (statuses s s.peers [])) (looking_count s.peers)) s
