-- ===== src/Client/Receive.antt =====
-- The messages that SessionClient::Step of src/session/sf4e__SessionClient.cxx receives.
use sf4_rollback_gui.Prelude.{
  ℕ, zero, suc, Bool, true, false, List, [], ◌∷◌, Option, none, some, ℤ, minus_one, int_eqb,
  int_ltb, Str, str_eqb, if◌then◌else◌,
}
use sf4_rollback_gui.Protocol.{
  ConnectionId, LobbyData, MatchData, MemberData, side, JoinResult, join_ok, request_invalid,
  lobby_full, name_taken, hash_invalid, not_registered, already_in_lobby, no_such_lobby,
  handoff_invalid, server_full, Message, hello_resp, join_rej, data_update, lobby_create_resp,
  lobby_list_resp, presence_list_resp, challenge_event, challenge_result, matchmake_event,
  chat_event, match_handoff, lobby_allready, battle_synced, forwarded, snapshot, join_req,
  SessionJoinRequest, StateSnapshot,
}
use sf4_rollback_gui.Client.State.{
  Client, Libraries, ErrorType, sce_unknown, hash_invalid_error, lobby_full_error, name_taken_error,
  request_invalid_error, not_registered_error, already_in_lobby_error, no_such_lobby_error,
  handoff_invalid_error, server_full_error, Call, send_request, close_connection, on_error,
  on_ready, on_battle_synced, on_lobby_list, on_presence, on_lobby_created, on_chat,
  on_match_handoff, on_challenge_event, on_matchmake_event, on_challenge_result, call, send,
}
use sf4_rollback_gui.Client.Snapshots.{Progress, goes_on, stops, failed, threw, receive_snapshot}

unfoldable pub auto_join_request : Client → SessionJoinRequest
auto_join_request c = record {
  sidecar_hash = c.sidecar_hash;
  username = c.name;
  port = c.reported_ggpo_port;
  lobby = c.auto_join_lobby;
  handoff = c.auto_join_handoff;
  nat_flags = c.nat_flags;
}

unfoldable pub handle_hello_resp : ConnectionId → Str → Client → Client
handle_hello_resp cid version c =
    let c' = record c { cid = cid; server_version = version } in
    send (send_request (join_req (some (auto_join_request c')))) c'

unfoldable pub error_type : JoinResult → ErrorType
error_type join_ok = sce_unknown
error_type hash_invalid = hash_invalid_error
error_type lobby_full = lobby_full_error
error_type name_taken = name_taken_error
error_type request_invalid = request_invalid_error
error_type not_registered = not_registered_error
error_type already_in_lobby = already_in_lobby_error
error_type no_such_lobby = no_such_lobby_error
error_type handoff_invalid = handoff_invalid_error
error_type server_full = server_full_error

unfoldable pub is_fatal : JoinResult → Bool
is_fatal hash_invalid = true
is_fatal name_taken = true
is_fatal server_full = true
is_fatal _ = false

-- CloseConnection with the invalid handle is taken to change nothing.
unfoldable pub close_conn : Client → Client
close_conn c = elim c.conn [
  | none ↦ c
  | some h ↦ record (call (close_connection h) c) { conn = none }
]

unfoldable pub handle_join_reject : JoinResult → Client → Progress
handle_join_reject r c =
    let c' = call (on_error (error_type r)) c in
    if is_fatal r then stops failed (close_conn c') else goes_on c'

-- The first of the members 0 and 1 with the client's name; the loop starts at member `i`, and `n`
-- members are left to look at.
unfoldable pub own_side : ℕ → ℕ → Str → List MemberData → Option ℕ
own_side zero i name ms = none
own_side (suc n) i name [] = none
own_side (suc n) i name (m ∷ ms) =
    let more = own_side n (suc i) name ms in if str_eqb m.name name then some i else more

-- `_outstandingReadyRequestNumber > -1`
unfoldable pub is_outstanding : ℤ → Bool
is_outstanding n = int_ltb minus_one n

unfoldable pub acknowledge : LobbyData → MatchData → Client → Client
acknowledge l m c =
    if is_outstanding c.outstanding_ready
    then elim (own_side 2 0 c.name l.members) [
      | none ↦ c
      | some i ↦
          if int_eqb (side i m.ready_message_num) c.outstanding_ready
          then record c { outstanding_ready = minus_one }
          else c
    ]
    else c

unfoldable pub handle_data_update : LobbyData → MatchData → Client → Client
handle_data_update l m c = acknowledge l m (record c { lobby_data = l; match_data = m })

unfoldable pub call_if : Bool → Call → Client → Client
call_if is_set k c = if is_set then call k c else c

-- A snapshot message whose payload was read, or was not.
unfoldable pub handle_snapshot : Option StateSnapshot → Client → Progress
handle_snapshot none c = goes_on c
handle_snapshot (some m) c = receive_snapshot m c

-- A message that was read. Forwarded messages are only logged.
unfoldable pub handle_message : Libraries → Message → Client → Progress
handle_message libs (hello_resp cid version) c = goes_on (handle_hello_resp cid version c)
handle_message libs (join_rej r) c = handle_join_reject r c
handle_message libs (data_update l m) c = goes_on (handle_data_update l m c)
handle_message libs (lobby_create_resp r id) c =
    goes_on (call_if c.callbacks.has_lobby_created (on_lobby_created r) c)
handle_message libs (lobby_list_resp ls) c =
    goes_on (call_if c.callbacks.has_lobby_list on_lobby_list (record c { lobby_listing = ls }))
handle_message libs (presence_list_resp ps n) c =
    goes_on
      (call_if c.callbacks.has_presence on_presence (record c { presence = ps; looking_count = n }))
handle_message libs (challenge_event from) c =
    goes_on (call_if c.callbacks.has_challenge_event (on_challenge_event from) c)
handle_message libs (challenge_result target r) c =
    goes_on (call_if c.callbacks.has_challenge_result (on_challenge_result target r) c)
handle_message libs (matchmake_event opponent) c =
    goes_on (call_if c.callbacks.has_matchmake_event (on_matchmake_event opponent) c)
handle_message libs (match_handoff token id) c =
    goes_on (call_if c.callbacks.has_match_handoff (on_match_handoff token id) c)
handle_message libs (chat_event e) c = goes_on (call_if c.callbacks.has_chat (on_chat e) c)
handle_message libs lobby_allready c = goes_on (call on_ready c)
handle_message libs battle_synced c = goes_on (call on_battle_synced c)
handle_message libs (forwarded text) c = goes_on c
handle_message libs (snapshot text) c = handle_snapshot (libs.read_snapshot text) c

-- What nlohmann::json makes of a message's bytes: no JSON, no type that reads, a payload that does not
-- read or a type that the client does not handle, or a message.
pub data Incoming : Type 0 where
  not_json no_type unreadable : Incoming
  received : Message → Incoming

-- The call of json::parse stands outside every `try`.
unfoldable pub handle_incoming : Libraries → Incoming → Client → Progress
handle_incoming libs not_json c = stops threw c
handle_incoming libs no_type c = goes_on c
handle_incoming libs unreadable c = goes_on c
handle_incoming libs (received m) c = handle_message libs m c
