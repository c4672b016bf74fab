-- ===== src/Registry.antt =====
-- src/session/sf4e__LobbyRegistry.hxx and .cxx: the lobbies of a server, by key. A `Lobby*` of the
-- source is the key under which the lobby stands.
pub mod Create
use sf4_rollback_gui.Prelude.{
  ℕ, suc, ◌+◌, ◌≡◌, Bool, true, false, List, [], ◌∷◌, map, Option, none, some, ℤ, pos, Str, lit,
  length, leb, ◌==◌, if◌then◌else◌, to_string,
}
use sf4_rollback_gui.Prelude.Map
use sf4_rollback_gui.Prelude.Map.{Map, str_key}
use sf4_rollback_gui.Protocol.{
  FixedPoint, LobbyId, null_lobby_id, MemberData, LobbyData, MatchData, cleared_match,
}

pub record LobbyMember : Type 0 where
  pub data_of : MemberData
  pub conn : ℕ

pub record PendingHandoff : Type 0 where
  pub token : Str
  pub seat : ℕ
  pub issued_at_ms : ℕ

pub record Lobby : Type 0 where
  pub id : LobbyId
  pub display_name : Str
  pub edition_select : Bool
  pub round_count : ℤ
  pub round_time : FixedPoint
  pub capacity : ℕ
  pub persistent : Bool
  pub unlisted : Bool
  pub match_data : MatchData
  pub members : List LobbyMember
  pub pending_handoffs : List PendingHandoff
  pub pending_all_ready_sends : List ℕ
  pub dirty : Bool
  pub send_all_ready : Bool
  pub send_battle_synced : Bool

-- The default member initialisers.
abbrev pub default_lobby : Lobby
default_lobby = record {
  id = null_lobby_id;
  display_name = [];
  edition_select = true;
  round_count = pos 3;
  round_time = record { fractional = 0; integral = pos 99 };
  capacity = 2;
  persistent = false;
  unlisted = false;
  match_data = cleared_match;
  members = [];
  pending_handoffs = [];
  pending_all_ready_sends = [];
  dirty = false;
  send_all_ready = false;
  send_battle_synced = false;
}

unfoldable pub to_lobby_data : Lobby → LobbyData
to_lobby_data l = record {
  id = l.id;
  name = l.display_name;
  edition_select = l.edition_select;
  round_count = l.round_count;
  round_time = l.round_time;
  members = map (λ m. m.data_of) l.members;
}

-- Lobby::FindMember
unfoldable pub find_member : ℕ → List LobbyMember → Option LobbyMember
find_member conn [] = none
find_member conn (m ∷ ms) = if m.conn == conn then some m else find_member conn ms

-- Lobby::MemberIndex: `none` is -1.
unfoldable pub member_index : ℕ → List LobbyMember → Option ℕ
member_index conn [] = none
member_index conn (m ∷ ms) =
    let rest = member_index conn ms in
    if m.conn == conn then some 0 else elim rest [ none ↦ none | some i ↦ some (suc i) ]

unfoldable pub is_full : Lobby → Bool
is_full l = leb l.capacity (length l.members)

unfoldable pub clear_handoffs : Lobby → Lobby
clear_handoffs l = record l { pending_handoffs = []; pending_all_ready_sends = [] }

pub record LobbyRegistry : Type 0 where
  pub host_identity : Str
  pub next_key : ℕ
  pub lobbies : Map Str Lobby

unfoldable pub empty_registry : Str → LobbyRegistry
empty_registry host = record { host_identity = host; next_key = 1; lobbies = [] }

pub record LobbySettings : Type 0 where
  pub display_name : Str
  pub edition_select : Bool
  pub round_count : ℤ
  pub round_time : FixedPoint
  pub capacity : ℕ
  pub persistent : Bool
  pub unlisted : Bool

-- `lobbies[key]` makes the lobby if it is not there.
unfoldable pub lobby_at : Str → Map Str Lobby → Lobby
lobby_at key lobbies = elim (Map.find key lobbies) [ none ↦ default_lobby | some l ↦ l ]

unfoldable pub configure : LobbyId → LobbySettings → Lobby → Lobby
configure id c l = record l {
  id = id;
  display_name = c.display_name;
  edition_select = c.edition_select;
  round_count = c.round_count;
  round_time = c.round_time;
  capacity = c.capacity;
  persistent = c.persistent;
  unlisted = c.unlisted;
}

-- LobbyRegistry::Create: the new lobby's key, and the registry.
unfoldable pub create : LobbySettings → LobbyRegistry → Str × LobbyRegistry
create c r =
    let key = to_string r.next_key in
    let id : LobbyId = record { host = r.host_identity; key = key } in
    (
      key,
      record r {
        next_key = r.next_key + 1;
        lobbies = Map.insert key (configure id c (lobby_at key r.lobbies)) r.lobbies;
      },
    )

unfoldable pub find_by_key : Str → LobbyRegistry → Option Lobby
find_by_key key r = Map.find key r.lobbies

-- The loop of LobbyRegistry::FindByConn, to the key of the lobby.
unfoldable pub find_by_conn : ℕ → Map Str Lobby → Option Str
find_by_conn conn [] = none
find_by_conn conn ((key, l) ∷ rest) = elim (find_member conn l.members) [
  | some m ↦ some key
  | none ↦ find_by_conn conn rest
]

unfoldable pub remove : Str → LobbyRegistry → LobbyRegistry
remove key r = record r { lobbies = Map.erase key r.lobbies }
