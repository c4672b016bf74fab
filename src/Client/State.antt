-- ===== src/Client/State.antt =====
-- The state of SessionClient in src/session/sf4e__SessionClient.hxx, its constructor, and Send. What
-- the client does outside of its own state is the list `calls`, in order: calls of the network library
-- and of the callbacks. A callback that calls the client again is a further operation of the client.
use sf4_rollback_gui.Prelude.{
  ℕ, suc, Bool, false, List, [], ◌∷◌, ◌++◌, Option, none, ℤ, minus_one, Str,
}
use sf4_rollback_gui.Prelude.Map.{Map}
use sf4_rollback_gui.Protocol.{
  ConnectionId, LobbyId, null_lobby_id, LobbyData, null_lobby, MatchData, cleared_match, JoinResult,
  ChallengeResult, LobbyListEntry, ChatEvent, PresenceEntry, Request, StateSnapshot,
}

pub data ErrorType : Type 0 where
  sce_unknown hash_invalid_error lobby_full_error name_taken_error : ErrorType
  request_invalid_error not_registered_error already_in_lobby_error : ErrorType
  no_such_lobby_error handoff_invalid_error server_full_error : ErrorType

-- What the code uses of `SteamNetworkingIPAddr`: the IPv4 address in host order, 0 where there is
-- none, and the port.
pub record IpAddress : Type 0 where
  pub ipv4 : ℕ
  pub port : ℕ
  pub is_local_host : Bool

-- Which of the callbacks that may be null are set.
pub record Callbacks : Type 0 where
  pub has_lobby_created : Bool
  pub has_lobby_list : Bool
  pub has_chat : Bool
  pub has_match_handoff : Bool
  pub has_presence : Bool
  pub has_challenge_event : Bool
  pub has_challenge_result : Bool
  pub has_matchmake_event : Bool

-- `send_forward` carries the JSON to forward as its text.
pub data Call : Type 0 where
  connect_by_ip_address : IpAddress → Call
  set_connection_callback close_connection linger_connection : ℕ → Call
  send_request : Request → Call
  send_snapshot : StateSnapshot → Call
  on_error : ErrorType → Call
  on_ready on_battle_synced on_lobby_list on_presence : Call
  on_lobby_created : JoinResult → Call
  on_chat : ChatEvent → Call
  on_match_handoff : Str → LobbyId → Call
  on_challenge_event on_matchmake_event : Str → Call
  on_challenge_result : Str → ChallengeResult → Call

-- An entry of fSystem::snapshotMap with its StateSnapshotMeta.
pub record LocalSnapshot : Type 0 where
  pub snapshot : StateSnapshot
  pub sent : Bool
  pub confirmed : Bool

-- `conn` is `none` for k_HSteamNetConnection_Invalid. `snapshot_map` is the game's table, which the
-- game shares with the client of its process. `sends` counts the calls of SendMessageToConnection.
pub record Client : Type 0 where
  pub name : Str
  pub lobby_data : LobbyData
  pub match_data : MatchData
  pub lobby_listing : List LobbyListEntry
  pub presence : List PresenceEntry
  pub looking_count : ℕ
  pub outstanding_ready : ℤ
  pub snapshots_enabled : Bool
  pub auto_join_lobby : LobbyId
  pub auto_join_handoff : Str
  pub server_version : Str
  pub sidecar_hash : Str
  pub ggpo_port : ℕ
  pub reported_ggpo_port : ℕ
  pub nat_flags : ℕ
  pub server_addr : IpAddress
  pub pending_remote_snapshots : Map ℤ StateSnapshot
  pub cid : ConnectionId
  pub callbacks : Callbacks
  pub connected : Bool
  pub conn : Option ℕ
  pub snapshot_map : Map ℤ LocalSnapshot
  pub sends : ℕ
  pub calls : List Call

abbrev pub cleared_address : IpAddress
cleared_address = record { ipv4 = 0; port = 0; is_local_host = false }

-- The constructor and the member initialisers. `_snapshotsEnabled` has no initial value in the source
-- and is set by either Connect.
unfoldable pub new_client : Callbacks → Str → ℕ → Str → Client
new_client callbacks sidecar_hash ggpo_port name = record {
  name = name;
  lobby_data = null_lobby;
  match_data = cleared_match;
  lobby_listing = [];
  presence = [];
  looking_count = 0;
  outstanding_ready = minus_one;
  snapshots_enabled = false;
  auto_join_lobby = null_lobby_id;
  auto_join_handoff = [];
  server_version = [];
  sidecar_hash = sidecar_hash;
  ggpo_port = ggpo_port;
  reported_ggpo_port = ggpo_port;
  nat_flags = 0;
  server_addr = cleared_address;
  pending_remote_snapshots = [];
  cid = record { host = []; user = [] };
  callbacks = callbacks;
  connected = false;
  conn = none;
  snapshot_map = [];
  sends = 0;
  calls = [];
}

unfoldable pub call : Call → Client → Client
call k c = record c { calls = c.calls ++ k ∷ [] }

-- What SendMessageToConnection reports: an EResult, and what it leaves in `msgNum`.
pub record SendResult : Type 0 where
  pub result : ℕ
  pub message_number : ℤ

abbrev pub result_ok : ℕ
result_ok = 1

-- The libraries that the client calls. `send_result` is the report on each call of
-- SendMessageToConnection by its number; `read_snapshot` is what nlohmann::json makes of the text of a
-- snapshot message.
pub record Libraries : Type 0 where
  pub send_result : ℕ → SendResult
  pub read_snapshot : Str → Option StateSnapshot

-- Send with a null `outMessageNum`.
unfoldable pub send : Call → Client → Client
unfolding call
send k c = record (call k c) { sends = suc c.sends }

-- The EResult of the next Send.
unfoldable pub next_result : Libraries → Client → ℕ
next_result libs c = (libs.send_result c.sends).result
