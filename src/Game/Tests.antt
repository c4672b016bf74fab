-- ===== src/Game/Tests.antt =====
-- Runs of the session and of the checksum of src/sf4e/sf4e__Game__Battle__System.cxx.
pub mod Saves
use sf4_rollback_gui.Prelude.{ℕ, ◌≡◌, ◌++◌, refl, true, false, List, [], ◌∷◌, Str, inl, arith}
use sf4_rollback_gui.Game.Frames.{
  Battle, FrameInput, plays, aborts, handshake_timed_out, session_started, connection_interrupted,
  connection_resumed, other_event, battle_update, update_allowed_battle, update_with_ggpo,
  end_update, simulate, advance, advance_callback,
}
use sf4_rollback_gui.Game.Frames.Play.{Step, updates, rolls_back, reports, play_step, play, InStep}
use sf4_rollback_gui.Game.Frames.Counted.{play-InStep}
use sf4_rollback_gui.Game.Frames.Waiting.{play-interruption, play-handshake_timed_out}
use sf4_rollback_gui.Game.Checksum.{fletcher32}
use sf4_rollback_gui.Game.Checksum.Fletcher.{reference, fletcher32-reference}

-- A battle whose session runs.
abbrev fight : Battle
fight = record {
  has_ggpo = true;
  update_allowed = true;
  ggpo_ever_ran = true;
  connection_interrupted = false;
  allowed_before_interrupt = true;
  wait_start_ms = 0;
  is_leaving = false;
  nat_symmetric_hint = false;
  halt_after_next = false;
  extra_frames = 0;
  simulated = 10;
  advanced = 10;
  captures = 10;
}

abbrev frame_at : ℕ → FrameInput
frame_at now = record {
  now_ms = now;
  input_added = true;
  input_synchronized = true;
  frame_advanced = true;
}

-- Two frames with a rollback of one frame between them.
abbrev rollback : List Step
rollback = updates (frame_at 1000) ∷ rolls_back true true ∷ updates (frame_at 1016) ∷ []

play-InStep_example : InStep fight (record (fight) { simulated = 13; advanced = 13; captures = 13 })
unfolding play play_step battle_update update_allowed_battle update_with_ggpo end_update simulate
    advance advance_callback
play-InStep_example =
    play-InStep fight (record (fight) { simulated = 13; advanced = 13; captures = 13 }) rollback
      refl refl refl refl refl

play-interruption_example :
    play
      (reports connection_interrupted
        ∷ ((updates (frame_at 1000) ∷ updates (frame_at 1016) ∷ [])
            ++ reports connection_resumed ∷ []))
      fight
    ≡ plays (record (fight) { allowed_before_interrupt = true })
play-interruption_example =
    play-interruption (updates (frame_at 1000) ∷ updates (frame_at 1016) ∷ []) fight (tt, (tt, tt))
      refl refl refl

play-handshake_timed_out_example :
    play
      (updates (frame_at 1000)
        ∷ ((reports other_event ∷ updates (frame_at 20000) ∷ []) ++ updates (frame_at 46001) ∷ []))
      (session_started fight)
    ≡ aborts (handshake_timed_out false)
play-handshake_timed_out_example =
    play-handshake_timed_out (frame_at 1000) (frame_at 46001)
      (reports other_event ∷ updates (frame_at 20000) ∷ []) fight (tt, (tt, tt)) (omega arith)
      (omega arith) (omega arith) refl

abbrev four_bytes : Str
four_bytes = 255 ∷ 0 ∷ 17 ∷ 128 ∷ []

fletcher32-reference_example :
    fletcher32 four_bytes (65534, 65000) ≡ reference four_bytes (65534, 65000)
fletcher32-reference_example =
    fletcher32-reference four_bytes 65534 65000
      (omega arith, (omega arith, (omega arith, (omega arith, tt)))) (omega arith) (omega arith)
      (inl (omega arith))
