-- ===== src/Game/Frames.antt =====
-- BattleUpdate, the GGPO callbacks and the start and end of a session in
-- src/sf4e/sf4e__Game__Battle__System.cxx. GGPO's answers are inputs. A rollback that GGPO runs inside
-- of one of its calls is a step of its own, the advance callback. The players' inputs, the sound and the
-- count of a sync test are left out.
pub mod Play
pub mod Counted
pub mod Waiting
use sf4_rollback_gui.Prelude.{
  ℕ, suc, ◌+◌, Bool, true, false, not, ◌&&◌, ◌==◌, ltb, if◌then◌else◌, sub64,
}

-- The reasons for which the process is ended: AbortGgpoMatch and AbortNetplay do not return. The flag
-- is the hint on a symmetric NAT.
pub data Abort : Type 0 where
  handshake_timed_out : Bool → Abort
  advance_failed rollback_advance_failed rollback_input_failed pool_exhausted : Abort
  session_not_started : Abort

-- `has_ggpo` is whether there is a session, and `is_leaving` whether the game's ready state is
-- RS_ISLEAVING. `simulated` counts the calls of the game's own BattleUpdate, `advanced` the successful
-- calls of ggpo_advance_frame, `captures` the calls of CaptureSnapshot.
pub record Battle : Type 0 where
  pub has_ggpo : Bool
  pub update_allowed : Bool
  pub ggpo_ever_ran : Bool
  pub connection_interrupted : Bool
  pub allowed_before_interrupt : Bool
  pub wait_start_ms : ℕ
  pub is_leaving : Bool
  pub nat_symmetric_hint : Bool
  pub halt_after_next : Bool
  pub extra_frames : ℕ
  pub simulated : ℕ
  pub advanced : ℕ
  pub captures : ℕ

pub data Fate : Type 0 where
  plays : Battle → Fate
  aborts : Abort → Fate

abbrev pub ggpo_sync_timeout_ms : ℕ
ggpo_sync_timeout_ms = 45000

-- What one call of BattleUpdate gets: the clock, and whether ggpo_add_local_input (the last one, or
-- none for a spectator), ggpo_synchronize_input and ggpo_advance_frame succeed.
pub record FrameInput : Type 0 where
  pub now_ms : ℕ
  pub input_added : Bool
  pub input_synchronized : Bool
  pub frame_advanced : Bool

unfoldable pub simulate : ℕ → Battle → Battle
simulate n b = record b { simulated = b.simulated + n }

unfoldable pub advance : Battle → Battle
advance b = record b { advanced = suc b.advanced; captures = suc b.captures }

-- The extra frames and the halt at the end of an update.
unfoldable pub end_update : Battle → Battle
unfolding simulate
end_update b =
    let extra = record (simulate b.extra_frames b) { extra_frames = 0 } in
    if b.halt_after_next
    then record extra { halt_after_next = false; update_allowed = false }
    else extra

-- The handshake watchdog.
unfoldable pub watch_handshake : ℕ → Battle → Fate
watch_handshake now b =
    if b.has_ggpo && not b.ggpo_ever_ran
    then (if b.wait_start_ms == 0
        then plays (record b { wait_start_ms = now })
        else if ltb ggpo_sync_timeout_ms (sub64 now b.wait_start_ms)
        then aborts (handshake_timed_out b.nat_symmetric_hint)
        else plays b)
    else plays b

unfoldable pub update_with_ggpo : FrameInput → Battle → Fate
update_with_ggpo i b =
    if i.input_added && i.input_synchronized
    then (if i.frame_advanced
        then plays (end_update (advance (simulate 1 b)))
        else aborts advance_failed)
    else plays (end_update b)

unfoldable pub update_allowed_battle : FrameInput → Battle → Fate
update_allowed_battle i b =
    if b.has_ggpo then update_with_ggpo i b else plays (end_update (simulate 1 b))

-- BattleUpdate
unfoldable pub battle_update : FrameInput → Battle → Fate
battle_update i b =
    if b.update_allowed
    then update_allowed_battle i b
    else if b.is_leaving
    then plays (simulate 1 b)
    else watch_handshake i.now_ms b

-- ggpo_advance_frame_callback, with whether ggpo_synchronize_input and ggpo_advance_frame succeed.
unfoldable pub advance_callback : Bool → Bool → Battle → Fate
advance_callback synchronized frame_advanced b =
    if not synchronized
    then aborts rollback_input_failed
    else if frame_advanced
    then plays (advance (simulate 1 b))
    else aborts rollback_advance_failed

-- The events that ggpo_on_event_callback tells apart.
pub data GgpoEvent : Type 0 where
  running connection_interrupted connection_resumed disconnected_from_peer other_event : GgpoEvent

unfoldable pub on_event : GgpoEvent → Battle → Battle
on_event running b = record b { update_allowed = true; ggpo_ever_ran = true; wait_start_ms = 0 }
on_event connection_interrupted b = if b.connection_interrupted then b else record b {
  connection_interrupted = true;
  allowed_before_interrupt = b.update_allowed;
  update_allowed = false;
}
on_event connection_resumed b =
    if b.connection_interrupted
    then record b { connection_interrupted = false; update_allowed = b.allowed_before_interrupt }
    else b
on_event disconnected_from_peer b = record b { connection_interrupted = false; is_leaving = true }
on_event other_event b = b

-- What StartGGPO, StartSpectating and StartSynctest set.
unfoldable pub session_started : Battle → Battle
session_started b = record b {
  has_ggpo = true;
  update_allowed = false;
  wait_start_ms = 0;
  ggpo_ever_ran = false;
  connection_interrupted = false;
}

-- StartGGPO, with whether the session could be started, and whether the game's system exists.
unfoldable pub start_ggpo : Bool → Bool → Battle → Fate
start_ggpo started has_system b =
    if started
    then plays (session_started (if has_system then record b { is_leaving = false } else b))
    else aborts session_not_started

unfoldable pub start_spectating : Bool → Battle → Fate
start_spectating started b =
    if started then plays (session_started b) else aborts session_not_started

-- CloseBattle
unfoldable pub close_battle : Battle → Battle
close_battle b = record b {
  has_ggpo = false;
  wait_start_ms = 0;
  ggpo_ever_ran = false;
  connection_interrupted = false;
}
