-- ===== src/Protocol/Messages.antt =====
-- The message structs of src/session/sf4e__SessionProtocol.hxx. What the server receives is a
-- `Packet`: GameNetworkingSockets' fields, and what nlohmann::json makes of the bytes, where `none`
-- is the exception that `get_to` throws.
use sf4_rollback_gui.Prelude.{ℕ, Bool, List, Option, ℤ, Str}
use sf4_rollback_gui.Protocol.Types.{
  FixedPoint, ConfirmedCharaConditions, ConnectionId, LobbyId, LobbyData, MatchData,
}

pub data JoinResult : Type 0 where
  join_ok request_invalid lobby_full name_taken hash_invalid not_registered : JoinResult
  already_in_lobby no_such_lobby handoff_invalid server_full : JoinResult

pub data PresenceStatus : Type 0 where
  lounge looking in_lobby in_match : PresenceStatus

pub data ChallengeResult : Type 0 where
  accepted declined expired busy offline : ChallengeResult

pub record SessionJoinRequest : Type 0 where
  pub sidecar_hash : Str
  pub username : Str
  pub port : ℕ
  pub lobby : LobbyId
  pub handoff : Str
  pub nat_flags : ℕ

pub record LobbyCreate : Type 0 where
  pub name : Str
  pub edition_select : Bool
  pub round_count : ℤ
  pub round_time : FixedPoint

pub record LobbyListEntry : Type 0 where
  pub id : LobbyId
  pub name : Str
  pub player_count : ℕ
  pub capacity : ℕ
  pub players : List Str

pub record ChatSend : Type 0 where
  pub channel : Str
  pub text : Str

pub record ChatEvent : Type 0 where
  pub channel : Str
  pub from_name : Str
  pub text : Str
  pub ts : ℕ

pub record PresenceEntry : Type 0 where
  pub name : Str
  pub status : PresenceStatus

pub record ChallengeAnswer : Type 0 where
  pub from_name : Str
  pub accept : Bool

-- The forwarded JSON itself travels as the packet's bytes.
pub record ForwardMessage : Type 0 where
  pub src : ConnectionId
  pub dest : ConnectionId

-- The message types that a server handles, with their payloads; `other` is any further type.
pub data Request : Type 0 where
  hello lobby_list lobby_leave presence_list battle_loaded battle_ended : Request
  battle_snapshot other : Request
  join_req : Option SessionJoinRequest → Request
  lobby_create : Option LobbyCreate → Request
  challenge_send : Option Str → Request
  challenge_answer : Option ChallengeAnswer → Request
  matchmake : Option Bool → Request
  chat_send : Option ChatSend → Request
  forward : Option ForwardMessage → Request
  prebattle_setchara : Option ConfirmedCharaConditions → Request
  prebattle_setenv : Option ℕ → Request
  prebattle_setstage : Option ℤ → Request
  lobby_ready : Option (Unit {0}) → Request
  lobby_reportresults : Option ℤ → Request

pub data Body : Type 0 where
  non_json untyped : Body
  typed : Request → Body

-- `SteamNetworkingIPAddr`: whether it is the local host, and its text without the port.
pub record PeerAddr : Type 0 where
  pub is_local_host : Bool
  pub text : Str

-- One received message: `now_ms` and `wall` are the clocks when it is handled.
pub record Packet : Type 0 where
  pub conn : ℕ
  pub addr : PeerAddr
  pub message_number : ℕ
  pub raw : Str
  pub body : Body
  pub now_ms : ℕ
  pub wall : ℕ

-- What a server sends. `forwarded` and `snapshot` carry a client's own message on.
pub data Message : Type 0 where
  hello_resp : ConnectionId → Str → Message
  join_rej : JoinResult → Message
  data_update : LobbyData → MatchData → Message
  lobby_create_resp : JoinResult → LobbyId → Message
  lobby_list_resp : List LobbyListEntry → Message
  presence_list_resp : List PresenceEntry → ℕ → Message
  challenge_event : Str → Message
  challenge_result : Str → ChallengeResult → Message
  matchmake_event : Str → Message
  chat_event : ChatEvent → Message
  match_handoff : Str → LobbyId → Message
  lobby_allready battle_synced : Message
  forwarded snapshot : Str → Message
