-- ===== src/App/State.antt =====
-- The struct App of src/client/lobby_client.cxx, and its alerts. A buffer of chars is the text before its
-- NUL. The settings of a lobby to create, the character and the stage are left out.
use sf4_rollback_gui.Prelude.{
  ℕ, ◌-◌, Bool, false, List, [], ◌∷◌, ◌++◌, Option, none, some, Str, str_eqb, take, ltb, ◌==◌,
  sub64, if◌then◌else◌,
}
use sf4_rollback_gui.Protocol.{LobbyId, ChatEvent}
use sf4_rollback_gui.Client.State.{Client}
use sf4_rollback_gui.Client.Connection.{disconnect}

pub data AppScreen : Type 0 where
  login_screen session_screen : AppScreen

-- The parameters of the game that a handoff launches.
pub record Launch : Type 0 where
  pub join_server : Str
  pub join_lobby : LobbyId
  pub join_token : Str
  pub join_name : Str
  pub launch_port : ℕ
  pub forces_relay : Bool

-- What the app does outside of its state.
pub data Effect : Type 0 where
  launches : Launch → Effect
  plays_sound flashes_window saves_config : Effect

-- `game_process` is whether there is a handle of the launched game. `finished` holds the clients that
-- were destroyed, which disconnects them.
pub record App : Type 0 where
  pub screen : AppScreen
  pub client : Option Client
  pub player_name : Str
  pub server_addr : Str
  pub chat_input : Str
  pub chat_log : List ChatEvent
  pub alerts : List Str
  pub alert_front_since : ℕ
  pub version_warned : Bool
  pub next_list_refresh : ℕ
  pub both_ready : Bool
  pub game_launched : Bool
  pub ggpo_port : ℕ
  pub game_process : Bool
  pub rejoin_target : LobbyId
  pub rejoin_attempts : ℕ
  pub next_rejoin_at : ℕ
  pub challenge_from : Str
  pub challenge_received_at : ℕ
  pub challenge_target : Str
  pub looking : Bool
  pub muted : Bool
  pub force_relay : Bool
  pub finished : List Client
  pub effects : List Effect

unfoldable pub effect : Effect → App → App
effect k a = record a { effects = a.effects ++ k ∷ [] }

-- `strncpy_s` with _TRUNCATE into a buffer of `size` chars.
unfoldable pub truncate : ℕ → Str → Str
truncate size text = take (size - 1) text

unfoldable pub last_is : Str → List Str → Bool
last_is text [] = false
last_is text (t ∷ []) = str_eqb t text
last_is text (t ∷ u ∷ ts) = last_is text (u ∷ ts)

-- PushAlert
unfoldable pub push_alert : Str → App → App
push_alert text a = if last_is text a.alerts then a else record a { alerts = a.alerts ++ text ∷ [] }

abbrev pub alert_lifetime_ms : ℕ
alert_lifetime_ms = 8000

unfoldable pub alert_shown : ℕ → App → App
alert_shown now a = if a.alert_front_since == 0 then record a { alert_front_since = now } else a

unfoldable pub dismiss : List Str → List Str
dismiss [] = []
dismiss (t ∷ ts) = ts

unfoldable pub expire_alert : ℕ → App → App
expire_alert now a =
    if ltb alert_lifetime_ms (sub64 now a.alert_front_since)
    then (record a {
      alerts = dismiss a.alerts;
      alert_front_since = elim (dismiss a.alerts) [ [] ↦ 0 | t ∷ ts ↦ now ];
    })
    else a

unfoldable pub press_ok : Bool → App → App
press_ok pressed a = elim a.alerts [
  | [] ↦ a
  | t ∷ ts ↦ if pressed then record a { alerts = ts; alert_front_since = 0 } else a
]

-- DrawAlerts, with whether the button is pressed. The button is drawn while an alert is left.
unfoldable pub draw_alerts : ℕ → Bool → App → App
draw_alerts now pressed a = elim a.alerts [
  | [] ↦ record a { alert_front_since = 0 }
  | t ∷ ts ↦ press_ok pressed (expire_alert now (alert_shown now a))
]

-- `client.reset()` and the destruction of the client before.
unfoldable pub reset_client : Option Client → App → App
reset_client next a = elim a.client [
  | none ↦ record a { client = next }
  | some c ↦ record a { client = next; finished = a.finished ++ disconnect c ∷ [] }
]
