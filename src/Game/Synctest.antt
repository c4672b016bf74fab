-- ===== src/Game/Synctest.antt =====
-- SynctestCompareFrame of src/sf4e/sf4e__Game__Battle__System.cxx: the second save of a frame in a sync
-- test is its re-simulation, and is compared with the first. What the function logs is a list.
pub mod Detection
use sf4_rollback_gui.Prelude.{
  ℕ, suc, ◌-◌, Bool, true, false, not, ◌||◌, ◌&&◌, List, [], ◌∷◌, ◌++◌, none, some, ℤ, Str, length,
  str_eqb, ltb, ◌==◌, if◌then◌else◌,
}
use sf4_rollback_gui.Prelude.Map.{Map, int_key, find, insert, erase}
use sf4_rollback_gui.Game.Checksum.{SavedState}

-- The global data of a saved state, in the groups of its checksum.
pub record Globals : Type 0 where
  pub flow_ids : Str
  pub flow_callables : Str
  pub game_manager : Str

unfoldable pub globals : SavedState → Globals
globals s = record {
  flow_ids = s.flow_ids;
  flow_callables = s.flow_callables;
  game_manager = s.game_manager;
}

pub record SynctestFrame : Type 0 where
  pub parts : List ℕ
  pub d : Globals

unfoldable pub frame_of : SavedState → List ℕ → SynctestFrame
frame_of s parts = record { parts = parts; d = globals s }

-- The lines of a report. `globals_diff` is the call of DumpGlobalsDiff.
pub data Line : Type 0 where
  divergence : ℤ → Line
  key_differs globals_part_differs : ℕ → ℕ → ℕ → Line
  globals_diff : Globals → Globals → Line
  count_differs : ℕ → ℕ → Line

unfoldable pub part_line : ℕ → ℕ → ℕ → ℕ → Line
part_line n_keys k original resim =
    if ltb k n_keys
    then key_differs k original resim
    else globals_part_differs (k - n_keys) original resim

-- The loop over the parts from `k` on.
unfoldable pub part_lines : ℕ → ℕ → List ℕ → List ℕ → List Line
part_lines n_keys k [] resims = []
part_lines n_keys k (a ∷ originals) [] = []
part_lines n_keys k (a ∷ originals) (b ∷ resims) =
    let rest = part_lines n_keys (suc k) originals resims in
    if a == b then rest else part_line n_keys k a b ∷ rest

-- `flowDiverged` after the loop.
unfoldable pub flow_diverged : ℕ → ℕ → List ℕ → List ℕ → Bool
flow_diverged n_keys k [] resims = false
flow_diverged n_keys k (a ∷ originals) [] = false
flow_diverged n_keys k (a ∷ originals) (b ∷ resims) =
    (not (a == b) && not (ltb k n_keys)) || flow_diverged n_keys (suc k) originals resims

unfoldable pub compare_parts : ℤ → ℕ → SynctestFrame → SynctestFrame → List Line
compare_parts frame n_keys prior now =
    if str_eqb prior.parts now.parts
    then []
    else divergence frame
      ∷ (part_lines n_keys 0 prior.parts now.parts
          ++ (if flow_diverged n_keys 0 prior.parts now.parts
              then globals_diff prior.d now.d ∷ []
              else [])
          ++ (if length now.parts == length prior.parts
              then []
              else count_differs (length prior.parts) (length now.parts) ∷ []))

abbrev pub window_size : ℕ
window_size = 64

-- The loop that erases the first entries.
unfoldable pub trim : Map ℤ SynctestFrame → Map ℤ SynctestFrame
trim [] = []
trim (e ∷ w) = let rest = trim w in if ltb window_size (length (e ∷ w)) then rest else e ∷ w

-- SynctestCompareFrame: what it logs, and the frames it keeps.
unfoldable pub compare_frame :
    ℤ → SavedState → List ℕ → Map ℤ SynctestFrame → List Line × Map ℤ SynctestFrame
compare_frame frame s parts w = elim (find frame w) [
  | none ↦ ([], trim (insert frame (frame_of s parts) w))
  | some prior ↦ (compare_parts frame (length s.keys) prior (frame_of s parts), erase frame w)
]
