-- ===== src/App/Settings.antt =====
-- The settings of the game in its config.ini that src/client/lobby_client.cxx checks and fixes. The file
-- is its content; reading and writing it, and its attributes, are left out.
pub mod Fixed
use sf4_rollback_gui.Prelude.{
  Bool, true, false, ◌||◌, List, [], ◌∷◌, ◌++◌, Option, none, some, Str, lit, str_eqb, is_empty,
  ◌==◌, if◌then◌else◌,
}
use sf4_rollback_gui.Server.Relay.{strip_prefix}
use sf4_rollback_gui.App.State.{App, push_alert}

pub data GameSettingsState : Type 0 where
  gs_unknown gs_ready gs_needs_fix : GameSettingsState

pub record Setting : Type 0 where
  pub key : Str
  pub required : Str

abbrev pub frame_rate : Setting
frame_rate = record { key = lit "FrameRate"; required = lit "FIXED" }

abbrev pub motion_blur : Setting
motion_blur = record { key = lit "MotionBlurQuality"; required = lit "OFF" }

abbrev pub required_game_settings : List Setting
required_game_settings = frame_rate ∷ motion_blur ∷ []

-- The text up to the end of the line, and the rest from there on.
unfoldable pub split_line : Str → Str × Str
split_line [] = ([], [])
split_line (c ∷ s) =
    let rest = split_line s in if (c == 13) || (c == 10) then ([], c ∷ s) else (c ∷ rest.0, rest.1)

-- The content before a value, the value, and the content behind it.
abbrev pub Span : Type 0
Span = Str × (Str × Str)

unfoldable pub after_needle : Str → Option Str → Option Span
after_needle needle none = none
after_needle needle (some rest) = some (needle, split_line rest)

unfoldable pub shift : Str → Option Span → Option Span
shift s none = none
shift s (some (before, value)) = some (s ++ before, value)

unfoldable pub first_of : Option Span → Option Span → Option Span
first_of (some v) later = some v
first_of none later = later

-- `content.find`
unfoldable pub search : Str → Str → Option Span
search needle [] = after_needle needle (strip_prefix needle [])
search needle (c ∷ s) =
    first_of (after_needle needle (strip_prefix needle (c ∷ s))) (shift (c ∷ []) (search needle s))

-- FindIniValue
unfoldable pub find_ini_value : Str → Str → Option Span
find_ini_value content key =
    first_of (after_needle (key ++ lit "=") (strip_prefix (key ++ lit "=") content))
      (search (10 ∷ key ++ lit "=") content)

unfoldable pub has_setting : Str → Setting → Bool
has_setting content s = elim (find_ini_value content s.key) [
  | none ↦ false
  | some (before, (value, after)) ↦ str_eqb value s.required
]

unfoldable pub check_settings : Str → List Setting → GameSettingsState
check_settings content [] = gs_ready
check_settings content (s ∷ ss) =
    let rest = check_settings content ss in if has_setting content s then rest else gs_needs_fix

-- CheckGameSettings, on the content of the file, which is empty where there is none.
unfoldable pub check_game_settings : Str → GameSettingsState
check_game_settings content =
    if is_empty content then gs_unknown else check_settings content required_game_settings

-- One round of the loop in FixGameSettings: the content and the app.
unfoldable pub fix_setting : Setting → Str × App → Str × App
fix_setting s (content, a) = elim (find_ini_value content s.key) [
  | none ↦ (
    content,
    push_alert (lit "Couldn't fix " ++ s.key ++ lit "- set it in the game's PC graphic options") a,
  )
  | some (before, (value, after)) ↦
      ((if str_eqb value s.required then content else before ++ (s.required ++ after)), a)
]

unfoldable pub fix_settings : List Setting → Str × App → Str × App
fix_settings [] f = f
fix_settings (s ∷ ss) f = fix_settings ss (fix_setting s f)

unfoldable pub report_unwritten : Bool → App → App
report_unwritten wrote a =
    if wrote
    then a
    else push_alert
        (lit
          "Couldn't write the game's config.ini- fix the settings in the game's PC options instead")
        a

-- FixGameSettings on a file that could be read, with whether it can be written: what is written.
unfoldable pub fix_game_settings : Bool → Str → App → Str × App
fix_game_settings wrote content a =
    let fixed = fix_settings required_game_settings (content, a) in
    (fixed.0, report_unwritten wrote fixed.1)
