-- ===== src/Game/Frames/Play.antt =====
-- A rollback session of src/sf4e/sf4e__Game__Battle__System.cxx over time: frames, rollbacks and events
-- in any order.
use sf4_rollback_gui.Prelude.{
  ℕ, ◌+◌, ◌≡◌, ◌⊎◌, inl, inr, refl, sym, ◌∙◌, subst, Bool, true, false, List, [], ◌∷◌, arith,
}
use sf4_rollback_gui.Game.Frames.{
  handshake_timed_out, Battle, Fate, plays, aborts, advance_failed, rollback_input_failed,
  rollback_advance_failed, FrameInput, simulate, advance, end_update, watch_handshake,
  update_with_ggpo, update_allowed_battle, battle_update, advance_callback, GgpoEvent, running,
  connection_interrupted, connection_resumed, disconnected_from_peer, other_event, on_event,
}

pub data Step : Type 0 where
  updates : FrameInput → Step
  rolls_back : Bool → Bool → Step
  reports : GgpoEvent → Step

unfoldable pub play_step : Step → Battle → Fate
play_step (updates i) b = battle_update i b
play_step (rolls_back synchronized frame_advanced) b =
    advance_callback synchronized frame_advanced b
play_step (reports e) b = plays (on_event e b)

abbrev pub and_plays : Fate → (Battle → Fate) → Fate
and_plays (plays b) next = next b
and_plays (aborts a) next = aborts a

unfoldable pub play : List Step → Battle → Fate
play [] b = plays b
play (s ∷ rest) b = and_plays (play_step s b) (λ b'. play rest b')

-- Each frame that the game simulates is one that GGPO has advanced, from the frames of `start` on.
abbrev pub InStep : Battle → Battle → Type 0
InStep start b = b.simulated + start.advanced ≡ b.advanced + start.simulated

-- What holds of a session that has not begun to leave.
pub record Keeps (start b : Battle) : Type 0 where
  pub ggpo : b.has_ggpo ≡ true
  pub extra : b.extra_frames ≡ 0
  pub in_step : InStep start b
  pub staying : b.is_leaving ≡ false

abbrev pub Fine : Battle → Fate → Type 0
Fine start (plays b) = (b.is_leaving ≡ true) ⊎ Keeps start b
Fine start (aborts a) = Unit

end_update-Keeps : (start b : Battle) → Keeps start b → Keeps start (end_update b)
unfolding end_update simulate
end_update-Keeps start b h = ground (arith, h)

counted-Keeps : (start b : Battle) → Keeps start b → Keeps start (advance (simulate 1 b))
unfolding advance simulate
counted-Keeps start b h = ground (arith, h)

-- A frame that GGPO allows: an abort, or a simulated and advanced frame, or neither.
pub update_with_ggpo-cases :
    (i : FrameInput) (b : Battle)
    → (update_with_ggpo i b ≡ aborts advance_failed)
      ⊎ (update_with_ggpo i b ≡ plays (end_update (advance (simulate 1 b))))
      ⊎ (update_with_ggpo i b ≡ plays (end_update b))
unfolding update_with_ggpo
update_with_ggpo-cases i b = ground arith

-- A call of BattleUpdate in a session that is not leaving.
pub battle_update-cases :
    (i : FrameInput) (b : Battle)
    → b.has_ggpo ≡ true
    → b.is_leaving ≡ false
    → ((b.update_allowed ≡ true) × (battle_update i b ≡ update_with_ggpo i b))
      ⊎ ((b.update_allowed ≡ false) × (battle_update i b ≡ watch_handshake i.now_ms b))
unfolding battle_update update_allowed_battle
battle_update-cases i b g l = ground (arith, g, l)

pub watch-cases :
    (now : ℕ) (b : Battle)
    → (watch_handshake now b ≡ aborts (handshake_timed_out b.nat_symmetric_hint))
      ⊎ (watch_handshake now b ≡ plays b)
      ⊎ (watch_handshake now b ≡ plays (record b { wait_start_ms = now }))
unfolding watch_handshake
watch-cases now b = ground arith

pub advance_callback-cases :
    (synchronized frame_advanced : Bool) (b : Battle)
    → (advance_callback synchronized frame_advanced b ≡ aborts rollback_input_failed)
      ⊎ (advance_callback synchronized frame_advanced b ≡ aborts rollback_advance_failed)
      ⊎ (advance_callback synchronized frame_advanced b ≡ plays (advance (simulate 1 b)))
unfolding advance_callback
advance_callback-cases synchronized frame_advanced b = ground arith

on_event-Fine :
    (start : Battle) (e : GgpoEvent) (b : Battle)
    → Keeps start b
    → Fine start (plays (on_event e b))
unfolding on_event
on_event-Fine start running b h = inr (ground (arith, h))
on_event-Fine start connection_interrupted b h = inr (ground (arith, h))
on_event-Fine start connection_resumed b h = inr (ground (arith, h))
on_event-Fine start disconnected_from_peer b h = inl refl
on_event-Fine start other_event b h = inr h

battle_update-Fine :
    (start : Battle) (i : FrameInput) (b : Battle) → Keeps start b → Fine start (battle_update i b)
battle_update-Fine start i b h = elim (battle_update-cases i b h.ggpo h.staying) [
  | inl (_, e) ↦ elim (update_with_ggpo-cases i b) [
    | inl f ↦ subst (Fine start) (sym (e ∙ f)) tt
    | inr (inl f) ↦
        subst (Fine start) (sym (e ∙ f)) (inr (end_update-Keeps start _ (counted-Keeps start b h)))
    | inr (inr f) ↦ subst (Fine start) (sym (e ∙ f)) (inr (end_update-Keeps start b h))
  ]
  | inr (_, e) ↦ elim (watch-cases i.now_ms b) [
    | inl f ↦ subst (Fine start) (sym (e ∙ f)) tt
    | inr (inl f) ↦ subst (Fine start) (sym (e ∙ f)) (inr h)
    | inr (inr f) ↦ subst (Fine start) (sym (e ∙ f)) (inr (ground (arith, h)))
  ]
]

pub play_step-Fine :
    (start : Battle) (s : Step) (b : Battle) → Keeps start b → Fine start (play_step s b)
unfolding play_step
play_step-Fine start (updates i) b h = battle_update-Fine start i b h
play_step-Fine start (rolls_back synchronized frame_advanced) b h =
    elim (advance_callback-cases synchronized frame_advanced b) [
      | inl f ↦ subst (Fine start) (sym f) tt
      | inr (inl f) ↦ subst (Fine start) (sym f) tt
      | inr (inr f) ↦ subst (Fine start) (sym f) (inr (counted-Keeps start b h))
    ]
play_step-Fine start (reports e) b h = on_event-Fine start e b h
