-- ===== src/Client/Requests.antt =====
-- The requests of SessionClient in src/session/sf4e__SessionClient.cxx. Each gives the EResult of its
-- Send and the next client.
use sf4_rollback_gui.Prelude.{ℕ, Bool, [], some, ℤ, Str}
use sf4_rollback_gui.Protocol.{
  FixedPoint, ConfirmedCharaConditions, ConnectionId, LobbyId, Request, lobby_list, lobby_leave,
  presence_list, battle_loaded, battle_ended, join_req, lobby_create, challenge_send,
  challenge_answer, matchmake, chat_send, prebattle_setchara, prebattle_setenv, prebattle_setstage,
  lobby_ready, lobby_reportresults, forward, SessionJoinRequest,
}
use sf4_rollback_gui.Client.State.{Client, Libraries, send_request, send, next_result}

unfoldable pub ask : Libraries → Request → Client → ℕ × Client
ask libs r c = (next_result libs c, send (send_request r) c)

unfoldable pub lobby_create_request : Libraries → Str → Bool → ℤ → FixedPoint → Client → ℕ × Client
lobby_create_request libs name edition_select round_count round_time c =
    ask libs
      (lobby_create (
        some (record {
          name = name;
          edition_select = edition_select;
          round_count = round_count;
          round_time = round_time;
        })))
      c

unfoldable pub lobby_request_list : Libraries → Client → ℕ × Client
lobby_request_list libs c = ask libs lobby_list c

-- Lobby_Join sends neither a handoff token nor the NAT flags: they keep their defaults.
unfoldable pub join_request_for : LobbyId → Client → SessionJoinRequest
join_request_for id c = record {
  sidecar_hash = c.sidecar_hash;
  username = c.name;
  port = c.reported_ggpo_port;
  lobby = id;
  handoff = [];
  nat_flags = 0;
}

unfoldable pub lobby_join : Libraries → LobbyId → Client → ℕ × Client
lobby_join libs id c = ask libs (join_req (some (join_request_for id c))) c

unfoldable pub lobby_leave_request : Libraries → Client → ℕ × Client
lobby_leave_request libs c = ask libs lobby_leave c

unfoldable pub chat_send_request : Libraries → Str → Str → Client → ℕ × Client
chat_send_request libs channel text c =
    ask libs (chat_send (some (record { channel = channel; text = text }))) c

unfoldable pub presence_request_list : Libraries → Client → ℕ × Client
presence_request_list libs c = ask libs presence_list c

unfoldable pub challenge_send_request : Libraries → Str → Client → ℕ × Client
challenge_send_request libs target c = ask libs (challenge_send (some target)) c

unfoldable pub challenge_answer_request : Libraries → Str → Bool → Client → ℕ × Client
challenge_answer_request libs from_name accept c =
    ask libs (challenge_answer (some (record { from_name = from_name; accept = accept }))) c

unfoldable pub matchmake_set : Libraries → Bool → Client → ℕ × Client
matchmake_set libs enabled c = ask libs (matchmake (some enabled)) c

-- The number of the message that went out is kept, also when the send fails.
unfoldable pub lobby_ready_request : Libraries → Client → ℕ × Client
lobby_ready_request libs c = (
  next_result libs c,
  record (send (send_request (lobby_ready (some tt))) c) {
    outstanding_ready = (libs.send_result c.sends).message_number;
  },
)

unfoldable pub lobby_report_results : Libraries → ℤ → Client → ℕ × Client
lobby_report_results libs loser_side c = ask libs (lobby_reportresults (some loser_side)) c

unfoldable pub prebattle_set_env : Libraries → ℕ → Client → ℕ × Client
prebattle_set_env libs rng_seed c = ask libs (prebattle_setenv (some rng_seed)) c

unfoldable pub prebattle_set_chara : Libraries → ConfirmedCharaConditions → Client → ℕ × Client
prebattle_set_chara libs chara c = ask libs (prebattle_setchara (some chara)) c

unfoldable pub prebattle_set_stage : Libraries → ℤ → Client → ℕ × Client
prebattle_set_stage libs stage_id c = ask libs (prebattle_setstage (some stage_id)) c

unfoldable pub battle_loaded_request : Libraries → Client → ℕ × Client
battle_loaded_request libs c = ask libs battle_loaded c

unfoldable pub battle_ended_request : Libraries → Client → ℕ × Client
battle_ended_request libs c = ask libs battle_ended c

-- The sender's id is the one that the server gave.
unfoldable pub forward_request : Libraries → ConnectionId → Client → ℕ × Client
forward_request libs dest c = ask libs (forward (some (record { src = c.cid; dest = dest }))) c
