-- ===== src/App/Actions.antt =====
-- The actions of src/client/lobby_client.cxx, and what it does at each frame.
pub mod Rejoin
use sf4_rollback_gui.Prelude.{
  ℕ, zero, suc, ◌+◌, ◌-◌, ◌%◌, ◌^◌, Bool, true, false, ◌&&◌, List, [], ◌∷◌, ◌++◌, Option, none,
  some, Str, lit, is_empty, not, ltb, leb, ◌==◌, sub64, if◌then◌else◌,
}
use sf4_rollback_gui.Protocol.{LobbyId, null_lobby_id, MemberData, ConnectionId, connection_id_eqb}
use sf4_rollback_gui.Client.State.{Client, Libraries, IpAddress, new_client}
use sf4_rollback_gui.Client.Connection.{connect}
use sf4_rollback_gui.Client.Requests.{lobby_join, lobby_leave_request, chat_send_request}
use sf4_rollback_gui.Net.Resolve.{Resolver, resolve_host_port}
use sf4_rollback_gui.App.State.{
  App, login_screen, session_screen, saves_config, effect, truncate, push_alert, reset_client,
}
use sf4_rollback_gui.App.Callbacks.{app_callbacks, end_rejoin}

unfoldable pub has_colon : Str → Bool
has_colon [] = false
has_colon (c ∷ s) = let rest = has_colon s in if c == 58 then true else rest

-- NormalizeServerAddr. The text with the port fits into the buffer that is written first.
unfoldable pub normalize_server_addr : App → App
normalize_server_addr a =
    if is_empty a.server_addr
    then a
    else if has_colon a.server_addr
    then a
    else record a { server_addr = truncate 64 (a.server_addr ++ lit ":23450") }

unfoldable pub enter_session : IpAddress → ℕ → App → App
enter_session addr handle a =
    let c = connect addr handle (new_client app_callbacks [] a.ggpo_port a.player_name) in
    effect saves_config (record (reset_client (some (record c { snapshots_enabled = false })) a) {
      chat_log = [];
      both_ready = false;
      looking = false;
      challenge_from = [];
      challenge_target = [];
      next_list_refresh = 0;
      version_warned = false;
      screen = session_screen;
    })

-- ConnectToServer, where `handle` is what ConnectByIPAddress gives.
unfoldable pub connect_to_server : Resolver → ℕ → App → App
connect_to_server r handle a =
    let a' = normalize_server_addr a in
    elim (resolve_host_port r a'.server_addr) [
      | none ↦
          push_alert
            (lit "Could not find that server- the address should look like "
              ++ lit "sf4.zak123.com or 203.0.113.7 (port optional, default 23450)")
            a'
      | some addr ↦ enter_session addr handle a'
    ]

unfoldable pub drop_to_login : Option Str → App → App
drop_to_login reason a =
    let dropped = record (reset_client none a) {
      screen = login_screen;
      both_ready = false;
      rejoin_attempts = 0;
      looking = false;
      challenge_from = [];
      challenge_target = [];
    } in
    elim reason [ none ↦ dropped | some text ↦ push_alert text dropped ]

unfoldable pub side_of : ConnectionId → List MemberData → Option ℕ
side_of id [] = none
side_of id (m ∷ ms) =
    let rest = side_of id ms in
    if connection_id_eqb m.conn_id id
    then some 0
    else elim rest [ none ↦ none | some i ↦ some (suc i) ]

-- MySide: `none` is -1.
unfoldable pub my_side : App → Option ℕ
my_side a = elim a.client [ none ↦ none | some c ↦ side_of c.cid c.lobby_data.members ]

-- SendChat and the button that leaves the lobby, on an app with a client.
unfoldable pub send_chat : Libraries → Str → Client → App → App
send_chat libs channel c a = if is_empty a.chat_input then a else record a {
  client = some (chat_send_request libs channel a.chat_input c).1;
  chat_input = [];
}

unfoldable pub leave_lobby : Libraries → Client → App → App
leave_lobby libs c a = record a {
  client = some (lobby_leave_request libs c).1;
  both_ready = false;
  rejoin_attempts = 0;
  rejoin_target = null_lobby_id;
}

abbrev pub rejoin_tries : ℕ
rejoin_tries = 5

abbrev pub rejoin_interval_ms : ℕ
rejoin_interval_ms = 2000

-- The launched game has exited.
unfoldable pub game_closed : App → App
game_closed a = record a {
  game_process = false;
  game_launched = false;
  both_ready = false;
  rejoin_attempts = rejoin_tries;
  next_rejoin_at = 0;
}

unfoldable pub rejoin : Libraries → ℕ → Client → App → App
rejoin libs now c a =
    if leb a.next_rejoin_at now
    then (record a {
      client = some (lobby_join libs a.rejoin_target c).1;
      rejoin_attempts = a.rejoin_attempts - 1;
      next_rejoin_at = (now + rejoin_interval_ms) % 2 ^ 64;
    })
    else a

unfoldable pub tick_rejoin : Libraries → ℕ → App → App
tick_rejoin libs now a = if a.rejoin_attempts == 0 then a else elim a.client [
  | none ↦ a
  | some c ↦
      if is_empty c.cid.user
      then a
      else if is_empty c.lobby_data.id.key
      then rejoin libs now c a
      else end_rejoin a
]

-- TickGameWatch, with whether the game's process has ended.
unfoldable pub tick_game_watch : Libraries → Bool → ℕ → App → App
tick_game_watch libs ended now a =
    tick_rejoin libs now (if a.game_process && ended then game_closed a else a)

abbrev pub challenge_ttl_ms : ℕ
challenge_ttl_ms = 30000

unfoldable pub tick_challenge_expiry : ℕ → App → App
tick_challenge_expiry now a =
    if not (is_empty a.challenge_from) && ltb challenge_ttl_ms (sub64 now a.challenge_received_at)
    then record a { challenge_from = [] }
    else a
