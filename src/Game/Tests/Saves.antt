-- ===== src/Game/Tests/Saves.antt =====
-- Runs of the saved states and the sync test of src/sf4e/sf4e__Game__Battle__System.cxx.
use sf4_rollback_gui.Prelude.{
  ℕ, false, ◌≡◌, ◌↔◌, refl, List, [], ◌∷◌, none, some, pos, length, arith, str_eqb,
}
use sf4_rollback_gui.Prelude.Map.{find, insert}
use sf4_rollback_gui.Game.Checksum.{SavedState}
use sf4_rollback_gui.Game.Synctest.{
  compare_frame, compare_parts, divergence, globals_part_differs, globals_diff, part_lines,
  part_line, flow_diverged, globals, trim, frame_of,
}
use sf4_rollback_gui.Game.Synctest.Detection.{Save, compare, compares, report, report-detects}
use sf4_rollback_gui.Game.States.{
  SaveState, Saves, save_game_state, load_game_state, free_place, checksum_save, unused,
  num_save_states, close_saves, free_all,
}
use sf4_rollback_gui.Game.States.Places.{live}
use sf4_rollback_gui.Game.States.Kept.{
  saves, frees, requests, Spares, loaded, save_game_state-keeps, save_game_state-exhausted,
}

abbrev battle_start : SavedState
battle_start = record {
  keys = [];
  flow_ids = 1 ∷ [];
  flow_callables = 2 ∷ [];
  game_manager = 3 ∷ [];
}

abbrev save_at : ℕ → List ℕ → Save
save_at n parts = record { frame = pos n; state = battle_start; parts = parts }

-- A re-simulation whose game manager differs, with another frame in between.
report-detects_example :
    (report
        (save_at 7 (1 ∷ 2 ∷ 4 ∷ []))
        (compares (save_at 8 (5 ∷ []) ∷ []) (compare (save_at 7 (1 ∷ 2 ∷ 3 ∷ [])) []))
      ≡ [])
    ↔ ((save_at 7 (1 ∷ 2 ∷ 3 ∷ [])).parts ≡ (save_at 7 (1 ∷ 2 ∷ 4 ∷ [])).parts)
unfolding find
report-detects_example =
    report-detects (save_at 7 (1 ∷ 2 ∷ 3 ∷ [])) (save_at 7 (1 ∷ 2 ∷ 4 ∷ []))
      (save_at 8 (5 ∷ []) ∷ []) [] refl (omega arith) ((λ e. absurd (ground (arith, e))), tt) refl

abbrev with_sound : ℕ → SaveState ℕ
with_sound n = record { hashed = battle_start; sound = n }

abbrev new_saves : Saves ℕ
unfolding unused
new_saves = record {
  save_states = unused 3;
  synctest_session = false;
  frame_hashes = [];
  logged = [];
}

abbrev after_first : Saves ℕ
after_first = record {
  save_states = some (with_sound 5) ∷ none ∷ none ∷ [];
  synctest_session = false;
  frame_hashes = [];
  logged = [];
}

save_game_state-keeps_example :
    (load_game_state 0 new_saves ≡ none)
    × (loaded 0 (requests (saves (pos 2) (with_sound 6) ∷ frees 1 ∷ []) after_first)
        ≡ some (with_sound 5))
unfolding save_game_state free_place checksum_save Spares live new_saves
save_game_state-keeps_example =
    save_game_state-keeps (pos 1) (with_sound 5) new_saves after_first 0 0
      (saves (pos 2) (with_sound 6) ∷ frees 1 ∷ []) refl
      (tt, ((λ e. absurd (omega (arith, e))), tt)) (omega arith)

save_game_state-exhausted_example :
    (save_game_state (pos 1) (with_sound 5) new_saves ≡ none)
    ↔ (live new_saves.save_states ≡ length new_saves.save_states)
save_game_state-exhausted_example = save_game_state-exhausted (pos 1) (with_sound 5) new_saves

-- The divergence names the component that differs, and hands over the globals.
report_test :
    report (save_at 7 (1 ∷ 2 ∷ 4 ∷ [])) (compare (save_at 7 (1 ∷ 2 ∷ 3 ∷ [])) [])
    ≡ divergence (pos 7)
      ∷ globals_part_differs 2 3 4
      ∷ globals_diff (globals battle_start) (globals battle_start)
      ∷ []
unfolding report compare compare_frame compare_parts part_lines part_line flow_diverged find insert
    trim frame_of str_eqb
report_test = refl

-- A pool of no more places.
save_game_state_test :
    save_game_state (pos 1) (with_sound 5) (record (new_saves) { save_states = [] }) ≡ none
unfolding save_game_state free_place
save_game_state_test = refl

close_saves_test : (close_saves after_first).save_states ≡ unused (num_save_states 1)
unfolding close_saves free_all unused num_save_states
close_saves_test = refl
