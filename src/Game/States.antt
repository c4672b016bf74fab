-- ===== src/Game/States.antt =====
-- The saved states of a rollback session in src/sf4e/sf4e__Game__Battle__System.cxx: the pool that the
-- GGPO callbacks save into, load from and free, and the end of a battle. A state is the input of the
-- save; what reading it from the game and writing it back does to the game is left out.
pub mod Places
pub mod Kept
use sf4_rollback_gui.Prelude.{
  ℕ, zero, suc, ◌+◌, Bool, true, false, List, [], ◌∷◌, ◌++◌, Option, none, some, ℤ, set, get_elem?,
  if◌then◌else◌,
}
use sf4_rollback_gui.Prelude.Map.{Map}
use sf4_rollback_gui.Game.Checksum.{SavedState, checksum_save_state}
use sf4_rollback_gui.Game.Synctest.{SynctestFrame, Line, compare_frame}

-- A state: what the checksum reads of it, and the two maps of the sound, which it does not read.
pub record SaveState (S : Type 0) : Type 0 where
  pub hashed : SavedState
  pub sound : S

-- `save_states` has an entry for each of the NUM_SAVE_STATES places, `none` where `used` is false.
-- `logged` is what the comparison of a sync test logged.
pub record Saves (S : Type 0) : Type 0 where
  pub save_states : List (Option (SaveState S))
  pub synctest_session : Bool
  pub frame_hashes : Map ℤ SynctestFrame
  pub logged : List Line

-- NUM_SAVE_STATES, for GGPO_MAX_PREDICTION_FRAMES.
unfoldable pub num_save_states : ℕ → ℕ
num_save_states max_prediction_frames = max_prediction_frames + 2

module _ {S : Type 0} where
  -- The places of a process that has saved nothing.
  unfoldable pub unused : ℕ → List (Option (SaveState S))
  unused zero = []
  unused (suc n) = none ∷ unused n

  -- The loop of the save: the first place that is not used.
  unfoldable pub free_place : List (Option (SaveState S)) → Option ℕ
  free_place [] = none
  free_place (none ∷ states) = some 0
  free_place (some t ∷ states) = elim (free_place states) [ none ↦ none | some i ↦ some (suc i) ]

  -- The checksum of a save, and the comparison in a sync test.
  unfoldable pub checksum_save : ℤ → SaveState S → Saves S → ℕ × Saves S
  checksum_save frame state v =
      if v.synctest_session
      then (let checked = checksum_save_state state.hashed in
          let compared = compare_frame frame state.hashed checked.1 v.frame_hashes in
          (checked.0, record v { frame_hashes = compared.1; logged = v.logged ++ compared.0 }))
      else (0, v)

  -- ggpo_save_game_state_callback: the free_place, the checksum and the next state. `none` is the end by
  -- AbortGgpoMatch, when the pool is exhausted.
  unfoldable pub save_game_state : ℤ → SaveState S → Saves S → Option (ℕ × (ℕ × Saves S))
  save_game_state frame state v = elim (free_place v.save_states) [
    | none ↦ none
    | some i ↦
        some (
          i,
          checksum_save frame state (record v { save_states = set v.save_states i (some state) }),
        )
  ]

  -- ggpo_load_game_state_callback: the state that is copied into the game.
  unfoldable pub load_game_state : ℕ → Saves S → Option (SaveState S)
  load_game_state i v = elim (get_elem? v.save_states i) [ none ↦ none | some state ↦ state ]

  -- ggpo_free_buffer
  unfoldable pub free_buffer : ℕ → Saves S → Saves S
  free_buffer i v = record v { save_states = set v.save_states i none }

  unfoldable pub free_all : List (Option (SaveState S)) → List (Option (SaveState S))
  free_all [] = []
  free_all (s ∷ states) = none ∷ free_all states

  -- What CloseBattle does to the saved states and to a sync test.
  unfoldable pub close_saves : Saves S → Saves S
  close_saves v = record v {
    save_states = free_all v.save_states;
    synctest_session = false;
    frame_hashes = if v.synctest_session then [] else v.frame_hashes;
  }
