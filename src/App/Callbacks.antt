-- ===== src/App/Callbacks.antt =====
-- The callbacks that src/client/lobby_client.cxx gives its session client.
use sf4_rollback_gui.Prelude.{
  ℕ, Bool, true, false, not, List, [], ◌∷◌, ◌++◌, Str, lit, length, ltb, if◌then◌else◌,
}
use sf4_rollback_gui.Protocol.{
  LobbyId, JoinResult, join_ok, ChallengeResult, accepted, declined, expired, busy, offline,
  ChatEvent,
}
use sf4_rollback_gui.Client.State.{
  Callbacks, ErrorType, hash_invalid_error, name_taken_error, lobby_full_error, no_such_lobby_error,
  already_in_lobby_error, request_invalid_error, server_full_error,
}
use sf4_rollback_gui.App.State.{
  App, Launch, launches, plays_sound, flashes_window, effect, truncate, push_alert,
}

-- kCallbacks: the presence callback is null.
unfoldable pub app_callbacks : Callbacks
app_callbacks = record {
  has_lobby_created = true;
  has_lobby_list = true;
  has_chat = true;
  has_match_handoff = true;
  has_presence = false;
  has_challenge_event = true;
  has_challenge_result = true;
  has_matchmake_event = true;
}

unfoldable pub is_rejoining : App → Bool
is_rejoining a = ltb 0 a.rejoin_attempts

unfoldable pub end_rejoin : App → App
end_rejoin a = record a { rejoin_attempts = 0 }

unfoldable pub on_error : ErrorType → App → App
on_error hash_invalid_error a = push_alert (lit "Rejected by server: version mismatch") a
on_error name_taken_error a = push_alert (lit "Rejected by server: that name is taken") a
on_error lobby_full_error a =
    if is_rejoining a then a else push_alert (lit "Could not join: lobby is full") a
on_error no_such_lobby_error a =
    if is_rejoining a
    then end_rejoin a
    else push_alert (lit "Could not join: lobby no longer exists") (end_rejoin a)
on_error already_in_lobby_error a =
    if is_rejoining a then end_rejoin a else push_alert (lit "Could not join: already in a lobby") a
on_error request_invalid_error a =
    push_alert (lit "Rejected by server: bad request- version mismatch?") a
on_error server_full_error a = push_alert (lit "The server is full- try again later") a
on_error e a = push_alert (lit "Unknown session error") a

unfoldable pub on_ready : App → App
on_ready a = record a { both_ready = true }

unfoldable pub on_lobby_created : JoinResult → App → App
on_lobby_created join_ok a = a
on_lobby_created r a = push_alert (lit "Could not create lobby") a

abbrev pub chat_history_max : ℕ
chat_history_max = 500

-- The loop that pops from the front.
unfoldable pub trim_chat : List ChatEvent → List ChatEvent
trim_chat [] = []
trim_chat (e ∷ es) =
    let rest = trim_chat es in if ltb chat_history_max (length (e ∷ es)) then rest else e ∷ es

unfoldable pub on_chat : ChatEvent → App → App
on_chat e a = record a { chat_log = trim_chat (a.chat_log ++ e ∷ []) }

unfoldable pub launch_of : Str → LobbyId → Str → App → Launch
launch_of token lobby name a = record {
  join_server = a.server_addr;
  join_lobby = lobby;
  join_token = token;
  join_name = name;
  launch_port = a.ggpo_port;
  forces_relay = a.force_relay;
}

-- OnMatchHandoff on a client with a name, with whether the launcher exists and the process starts.
unfoldable pub on_match_handoff : Bool → Bool → Str → LobbyId → Str → App → App
on_match_handoff launcher_exists started token lobby name a =
    if not launcher_exists
    then push_alert (lit "Match is ready, but Launcher.exe isn't next to this app!") a
    else if started
    then (record (effect (launches (launch_of token lobby name a)) a) {
      game_process = true;
      rejoin_target = lobby;
      game_launched = true;
    })
    else push_alert (lit "Match is ready, but the game could not be launched") a

-- NotifyAttention, with whether there is a window in the background.
unfoldable pub notify_attention : Bool → App → App
notify_attention in_background a =
    let heard = if a.muted then a else effect plays_sound a in
    if in_background then effect flashes_window heard else heard

unfoldable pub on_challenge_event : ℕ → Bool → Str → App → App
on_challenge_event now in_background from a =
    notify_attention in_background
      (record a { challenge_from = truncate 32 from; challenge_received_at = now })

unfoldable pub challenge_alert : Str → ChallengeResult → Str
challenge_alert target accepted = target ++ lit " accepted- get ready!"
challenge_alert target declined = target ++ lit " declined the challenge"
challenge_alert target expired = target ++ lit " didn't answer"
challenge_alert target busy = target ++ lit " is busy"
challenge_alert target offline = target ++ lit " went offline"

unfoldable pub on_challenge_result : Str → ChallengeResult → App → App
on_challenge_result target r a = record (push_alert (challenge_alert target r) a) {
  challenge_target = [];
}

unfoldable pub on_matchmake_event : Bool → Str → App → App
on_matchmake_event in_background opponent a =
    notify_attention in_background
      (record (push_alert (lit "Matched with " ++ opponent ++ lit "!") a) { looking = false })
