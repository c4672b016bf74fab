-- ===== src/App/Tests.antt =====
-- Runs of the lobby client in src/client/lobby_client.cxx.
use sf4_rollback_gui.Prelude.{
  Str, ℕ, ◌<◌, ◌≡◌, refl, true, false, [], ◌∷◌, none, some, pos, lit, str_eqb, sub64, arith,
}
use sf4_rollback_gui.Protocol.{LobbyId}
use sf4_rollback_gui.Client.State.{Client, Libraries, new_client, lobby_full_error}
use sf4_rollback_gui.App.State.{
  App, session_screen, truncate, push_alert, last_is, draw_alerts, alert_shown, expire_alert,
  dismiss, press_ok,
}
use sf4_rollback_gui.App.Callbacks.{app_callbacks, on_error, is_rejoining}
use sf4_rollback_gui.Server.Relay.{strip_prefix}
use sf4_rollback_gui.App.Settings.Fixed.{InLine, fix_setting-has_setting}
use sf4_rollback_gui.App.Settings.{
  gs_ready, gs_needs_fix, Span, frame_rate, split_line, after_needle, shift, first_of, search,
  find_ini_value, has_setting, check_settings, check_game_settings, fix_setting, fix_settings,
  fix_game_settings,
}
use sf4_rollback_gui.App.Actions.{normalize_server_addr, has_colon}

abbrev libraries : Libraries
libraries = record {
  send_result = λ n. record { result = 1; message_number = pos 0 };
  read_snapshot = λ s. none;
}

abbrev lobby : LobbyId
lobby = record { host = lit "h"; key = lit "1" }

-- A client that is connected and sits in no lobby.
abbrev client : Client
unfolding new_client app_callbacks
client = record (new_client app_callbacks [] 23457 (lit "ann")) {
  cid = record { host = lit "h"; user = lit "4" };
}

abbrev app : App
app = record {
  screen = session_screen;
  client = some client;
  player_name = lit "ann";
  server_addr = lit "sf4.zak123.com";
  chat_input = [];
  chat_log = [];
  alerts = [];
  alert_front_since = 0;
  version_warned = false;
  next_list_refresh = 0;
  both_ready = true;
  game_launched = true;
  ggpo_port = 23457;
  game_process = true;
  rejoin_target = lobby;
  rejoin_attempts = 0;
  next_rejoin_at = 0;
  challenge_from = [];
  challenge_received_at = 0;
  challenge_target = [];
  looking = false;
  muted = false;
  force_relay = false;
  finished = [];
  effects = [];
}

-- While the app returns to the lobby a full lobby is no alert.
on_error_test :
    on_error lobby_full_error (record (app) { rejoin_attempts = 3 })
    ≡ record (app) { rejoin_attempts = 3 }
unfolding on_error is_rejoining
on_error_test = refl

normalize_server_addr_test : (normalize_server_addr app).server_addr ≡ lit "sf4.zak123.com:23450"
unfolding normalize_server_addr has_colon truncate
normalize_server_addr_test = refl

push_alert_test : (push_alert (lit "a") (push_alert (lit "a") app)).alerts ≡ lit "a" ∷ []
unfolding push_alert last_is str_eqb
push_alert_test = refl

-- An alert goes after eight seconds, and the next one begins.
draw_alerts_test :
    (draw_alerts 9001 false
      (record (app) { alerts = lit "a" ∷ lit "b" ∷ []; alert_front_since = 1000 }))
    ≡ record (app) { alerts = lit "b" ∷ []; alert_front_since = 9001 }
unfolding draw_alerts alert_shown expire_alert dismiss press_ok sub64
draw_alerts_test = refl

abbrev game_config : Str
game_config = lit "[Display]\r\nFrameRate=SMOOTH\r\nVSync=ON\r\nMotionBlurQuality=HIGH\r\n"

abbrev fixed_config : Str
fixed_config = lit "[Display]\r\nFrameRate=FIXED\r\nVSync=ON\r\nMotionBlurQuality=OFF\r\n"

fix_game_settings_test : (fix_game_settings true game_config app).0 ≡ fixed_config
unfolding fix_game_settings fix_settings fix_setting find_ini_value search first_of shift
    after_needle split_line strip_prefix str_eqb
fix_game_settings_test = refl

check_game_settings_test :
    (check_game_settings game_config ≡ gs_needs_fix) × (check_game_settings fixed_config ≡ gs_ready)
unfolding check_game_settings check_settings has_setting find_ini_value search first_of shift
    after_needle split_line strip_prefix str_eqb
check_game_settings_test = (refl, refl)

-- The frame rate stands between the first two ends of a line.
abbrev frame_rate_span : Span
frame_rate_span = (
  lit "[Display]\r\nFrameRate=",
  (lit "SMOOTH", lit "\r\nVSync=ON\r\nMotionBlurQuality=HIGH\r\n"),
)

letter-InLine : (c : ℕ) → 13 < c → InLine c
letter-InLine c h = ((λ e. absurd (omega (arith, e, h))), (λ e. absurd (omega (arith, e, h))))

fix_setting-has_setting_example :
    (has_setting (fix_setting frame_rate (game_config, app)).0 frame_rate ≡ true)
    × ((fix_setting frame_rate (game_config, app)).1 ≡ app)
unfolding find_ini_value search first_of shift after_needle split_line strip_prefix
fix_setting-has_setting_example =
    fix_setting-has_setting frame_rate game_config frame_rate_span app refl (
      letter-InLine 70 (omega arith),
      (
        letter-InLine 73 (omega arith),
        (
          letter-InLine 88 (omega arith),
          (letter-InLine 69 (omega arith), (letter-InLine 68 (omega arith), tt)),
        ),
      ),
    )
