-- ===== src/Game/Frames/Waiting.antt =====
-- Waiting for the peer in a session of src/sf4e/sf4e__Game__Battle__System.cxx: an interruption, and the
-- handshake that does not come about.
use sf4_rollback_gui.Prelude.{
  ℕ, ◌+◌, ◌<◌, ◌≡◌, inl, inr, refl, sym, ap, ◌∙◌, Bool, true, false, List, [], ◌∷◌, ◌++◌, All, ltb,
  if◌then◌else◌, sub64, sub64-eq_of_le, u64_mod, arith, Bool-cases,
}
use sf4_rollback_gui.Game.Frames.{
  handshake_timed_out, Battle, plays, aborts, FrameInput, watch_handshake, battle_update, running,
  connection_interrupted, connection_resumed, disconnected_from_peer, other_event, on_event,
  ggpo_sync_timeout_ms, session_started,
}
use sf4_rollback_gui.Game.Frames.Play.{
  Step, updates, rolls_back, reports, play_step, and_plays, play,
}

-- Frames, and events that say nothing about the connection.
abbrev pub IsIdle : Step → Type 0
IsIdle (updates i) = Unit
IsIdle (rolls_back synchronized frame_advanced) = ⊥
IsIdle (reports running) = ⊥
IsIdle (reports connection_interrupted) = ⊥
IsIdle (reports connection_resumed) = ⊥
IsIdle (reports disconnected_from_peer) = ⊥
IsIdle (reports other_event) = Unit

-- The session while the peer is unreachable.
abbrev interrupted : Battle → Battle
interrupted b = record b {
  connection_interrupted = true;
  allowed_before_interrupt = b.update_allowed;
  update_allowed = false;
}

paused_update :
    (i : FrameInput) (b : Battle)
    → b.update_allowed ≡ false
    → b.is_leaving ≡ false
    → b.ggpo_ever_ran ≡ true
    → battle_update i b ≡ plays b
unfolding battle_update watch_handshake
paused_update i b u l r = ground (arith, u, l, r)

paused_step :
    (s : Step) (b : Battle)
    → IsIdle s
    → b.update_allowed ≡ false
    → b.is_leaving ≡ false
    → b.ggpo_ever_ran ≡ true
    → play_step s b ≡ plays b
unfolding play_step on_event
paused_step (updates i) b q u l r = paused_update i b u l r
paused_step (reports other_event) b q u l r = refl
paused_step (rolls_back _ _) b q u l r = elim q [ ]
paused_step (reports running) b q u l r = elim q [ ]
paused_step (reports connection_interrupted) b q u l r = elim q [ ]
paused_step (reports connection_resumed) b q u l r = elim q [ ]
paused_step (reports disconnected_from_peer) b q u l r = elim q [ ]

paused :
    (steps rest : List Step) (b : Battle)
    → All IsIdle steps
    → b.update_allowed ≡ false
    → b.is_leaving ≡ false
    → b.ggpo_ever_ran ≡ true
    → play (steps ++ rest) b ≡ play rest b
unfolding play
paused [] rest b q u l r = refl
paused (s ∷ steps) rest b q u l r =
    ap (λ f. and_plays f (play (steps ++ rest))) (paused_step s b q.0 u l r)
    ∙ paused steps rest b q.1 u l r

interrupting :
    (b : Battle)
    → b.connection_interrupted ≡ false
    → on_event connection_interrupted b ≡ interrupted b
unfolding on_event
interrupting b c = ground (arith, c)

resuming :
    (b : Battle)
    → b.connection_interrupted ≡ false
    → on_event connection_resumed (interrupted b)
      ≡ record b { allowed_before_interrupt = b.update_allowed }
unfolding on_event
resuming b c =
    ap {A = Bool}
      (λ x. record b { connection_interrupted = x; allowed_before_interrupt = b.update_allowed })
      (sym c)

-- GGPO has run, the battle is not leaving, and the connection is interrupted and resumed later. Whatever
-- frames the game asks for in between, none is simulated, and the session is afterwards as it was.
pub play-interruption :
    (steps : List Step) (b : Battle)
    → All IsIdle steps
    → b.connection_interrupted ≡ false
    → b.is_leaving ≡ false
    → b.ggpo_ever_ran ≡ true
    → play (reports connection_interrupted ∷ (steps ++ reports connection_resumed ∷ [])) b
      ≡ plays (record b { allowed_before_interrupt = b.update_allowed })
unfolding play play_step
play-interruption steps b q c l r =
    ap (play (steps ++ reports connection_resumed ∷ [])) (interrupting b c)
    ∙ paused steps (reports connection_resumed ∷ []) (interrupted b) q refl l r
    ∙ ap plays (resuming b c)

-- One call of BattleUpdate while the first contact with the peer is awaited since `wait_start_ms`.
waiting_update :
    (i : FrameInput) (b : Battle)
    → b.has_ggpo ≡ true
    → b.update_allowed ≡ false
    → b.is_leaving ≡ false
    → b.ggpo_ever_ran ≡ false
    → 0 < b.wait_start_ms
    → battle_update i b ≡ (
        if ltb ggpo_sync_timeout_ms (sub64 i.now_ms b.wait_start_ms)
        then aborts (handshake_timed_out b.nat_symmetric_hint)
        else plays b)
unfolding battle_update watch_handshake
waiting_update i b g u l r w = ground (arith, g, u, l, r, w)

waiting_on :
    (i : FrameInput) (b : Battle)
    → b.has_ggpo ≡ true
    → b.update_allowed ≡ false
    → b.is_leaving ≡ false
    → b.ggpo_ever_ran ≡ false
    → 0 < b.wait_start_ms
    → ltb ggpo_sync_timeout_ms (sub64 i.now_ms b.wait_start_ms) ≡ false
    → battle_update i b ≡ plays b
waiting_on i b g u l r w n = waiting_update i b g u l r w ∙ rw n refl

waiting_over :
    (i : FrameInput) (b : Battle)
    → b.has_ggpo ≡ true
    → b.update_allowed ≡ false
    → b.is_leaving ≡ false
    → b.ggpo_ever_ran ≡ false
    → 0 < b.wait_start_ms
    → ltb ggpo_sync_timeout_ms (sub64 i.now_ms b.wait_start_ms) ≡ true
    → battle_update i b ≡ aborts (handshake_timed_out b.nat_symmetric_hint)
waiting_over i b g u l r w y = waiting_update i b g u l r w ∙ rw y refl

is_late :
    (now start : ℕ)
    → start + ggpo_sync_timeout_ms < now
    → now < u64_mod
    → ltb ggpo_sync_timeout_ms (sub64 now start) ≡ true
is_late now start late small =
    let exact = sub64-eq_of_le now start (omega (arith, late)) small in ground (arith, exact, late)

-- A session that was started, with its first call of BattleUpdate at the time `start`.
abbrev awaiting : ℕ → Battle → Battle
awaiting start b = record b { wait_start_ms = start }

first_wait :
    (i : FrameInput) (b : Battle)
    → b.has_ggpo ≡ true
    → b.update_allowed ≡ false
    → b.is_leaving ≡ false
    → b.ggpo_ever_ran ≡ false
    → b.wait_start_ms ≡ 0
    → battle_update i b ≡ plays (awaiting i.now_ms b)
unfolding battle_update watch_handshake
first_wait i b g u l r w = ground (arith, g, u, l, r, w)

gives_up :
    (steps : List Step) (last : FrameInput) (b : Battle)
    → All IsIdle steps
    → b.has_ggpo ≡ true
    → b.update_allowed ≡ false
    → b.is_leaving ≡ false
    → b.ggpo_ever_ran ≡ false
    → 0 < b.wait_start_ms
    → b.wait_start_ms + ggpo_sync_timeout_ms < last.now_ms
    → last.now_ms < u64_mod
    → play (steps ++ updates last ∷ []) b ≡ aborts (handshake_timed_out b.nat_symmetric_hint)
unfolding play play_step on_event
gives_up [] last b q g u l r w late small =
    ap (λ f. and_plays f plays)
      (waiting_over last b g u l r w (is_late last.now_ms b.wait_start_ms late small))
gives_up (updates i ∷ steps) last b q g u l r w late small =
    elim (Bool-cases (ltb ggpo_sync_timeout_ms (sub64 i.now_ms b.wait_start_ms))) [
      | inl y ↦
          ap (λ f. and_plays f (play (steps ++ updates last ∷ []))) (waiting_over i b g u l r w y)
      | inr n ↦
          ap (λ f. and_plays f (play (steps ++ updates last ∷ []))) (waiting_on i b g u l r w n)
          ∙ gives_up steps last b q.1 g u l r w late small
    ]
gives_up (reports other_event ∷ steps) last b q g u l r w late small =
    gives_up steps last b q.1 g u l r w late small
gives_up (rolls_back _ _ ∷ steps) last b q g u l r w late small = elim q.0 [ ]
gives_up (reports running ∷ steps) last b q g u l r w late small = elim q.0 [ ]
gives_up (reports connection_interrupted ∷ steps) last b q g u l r w late small = elim q.0 [ ]
gives_up (reports connection_resumed ∷ steps) last b q g u l r w late small = elim q.0 [ ]
gives_up (reports disconnected_from_peer ∷ steps) last b q g u l r w late small = elim q.0 [ ]

-- In a battle that is not leaving, a session was started at a clock that is not 0 and is below 2 ^ 64,
-- and GGPO runs no rollback and never reports that it runs, that the connection is interrupted or
-- resumed, or that the peer is gone. Whatever frames the game asks for
-- in between, at the first that it asks for more than 45 seconds after the first one at the latest,
-- the process is ended with the report of the failed handshake.
pub play-handshake_timed_out :
    (first last : FrameInput) (steps : List Step) (b : Battle)
    → All IsIdle steps
    → 0 < first.now_ms
    → first.now_ms + 45000 < last.now_ms
    → last.now_ms < u64_mod
    → b.is_leaving ≡ false
    → play (updates first ∷ (steps ++ updates last ∷ [])) (session_started b)
      ≡ aborts (handshake_timed_out b.nat_symmetric_hint)
unfolding play play_step session_started
play-handshake_timed_out first last steps b q w late small l =
    ap (λ f. and_plays f (play (steps ++ updates last ∷ [])))
      (first_wait first (session_started b) refl refl l refl refl)
    ∙ gives_up steps last (awaiting first.now_ms (session_started b)) q refl refl l refl w late
        small
