-- ===== src/Game/Frames/Counted.antt =====
-- The frames that the game simulates and those that GGPO advances, in a session of
-- src/sf4e/sf4e__Game__Battle__System.cxx.
use sf4_rollback_gui.Prelude.{
  ◌≡◌, ◌⊎◌, inl, inr, sym, ◌∙◌, subst, true, false, List, [], ◌∷◌, arith,
}
use sf4_rollback_gui.Game.Frames.{
  Battle, Fate, plays, aborts, FrameInput, simulate, advance, end_update, watch_handshake,
  update_with_ggpo, update_allowed_battle, battle_update, GgpoEvent, on_event,
}
use sf4_rollback_gui.Game.Frames.Play.{
  Step, updates, rolls_back, reports, play_step, and_plays, play, InStep, Keeps, Fine,
  update_with_ggpo-cases, watch-cases, advance_callback-cases, play_step-Fine,
}

-- A session that has begun to leave goes on leaving.
abbrev Leaves : Fate → Type 0
Leaves (plays b) = b.is_leaving ≡ true
Leaves (aborts a) = Unit

end_update-Leaves : (b : Battle) → b.is_leaving ≡ true → (end_update b).is_leaving ≡ true
unfolding end_update simulate
end_update-Leaves b h = ground (arith, h)

on_event-Leaves :
    (e : GgpoEvent) (b : Battle) → b.is_leaving ≡ true → (on_event e b).is_leaving ≡ true
unfolding on_event
on_event-Leaves e b h = ground (arith, h)

leaving-cases :
    (i : FrameInput) (b : Battle)
    → (battle_update i b ≡ update_with_ggpo i b)
      ⊎ (battle_update i b ≡ plays (end_update (simulate 1 b)))
      ⊎ (battle_update i b ≡ plays (simulate 1 b))
      ⊎ (battle_update i b ≡ watch_handshake i.now_ms b)
unfolding battle_update update_allowed_battle
leaving-cases i b = ground arith

battle_update-Leaves :
    (i : FrameInput) (b : Battle) → b.is_leaving ≡ true → Leaves (battle_update i b)
unfolding simulate advance
battle_update-Leaves i b h = elim (leaving-cases i b) [
  | inl e ↦ elim (update_with_ggpo-cases i b) [
    | inl f ↦ subst Leaves (sym (e ∙ f)) tt
    | inr (inl f) ↦ subst Leaves (sym (e ∙ f)) (end_update-Leaves (advance (simulate 1 b)) h)
    | inr (inr f) ↦ subst Leaves (sym (e ∙ f)) (end_update-Leaves b h)
  ]
  | inr (inl e) ↦ subst Leaves (sym e) (end_update-Leaves (simulate 1 b) h)
  | inr (inr (inl e)) ↦ subst Leaves (sym e) h
  | inr (inr (inr e)) ↦ elim (watch-cases i.now_ms b) [
    | inl f ↦ subst Leaves (sym (e ∙ f)) tt
    | inr (inl f) ↦ subst Leaves (sym (e ∙ f)) h
    | inr (inr f) ↦ subst Leaves (sym (e ∙ f)) h
  ]
]

play_step-Leaves : (s : Step) (b : Battle) → b.is_leaving ≡ true → Leaves (play_step s b)
unfolding play_step simulate advance
play_step-Leaves (updates i) b h = battle_update-Leaves i b h
play_step-Leaves (rolls_back synchronized frame_advanced) b h =
    elim (advance_callback-cases synchronized frame_advanced b) [
      | inl f ↦ subst Leaves (sym f) tt
      | inr (inl f) ↦ subst Leaves (sym f) tt
      | inr (inr f) ↦ subst Leaves (sym f) h
    ]
play_step-Leaves (reports e) b h = on_event-Leaves e b h

and_plays-Leaves :
    (f : Fate) (next : Battle → Fate)
    → ((b : Battle) → b.is_leaving ≡ true → Leaves (next b))
    → Leaves f
    → Leaves (and_plays f next)
and_plays-Leaves (plays b) next h w = h b w
and_plays-Leaves (aborts a) next h w = tt

play-Leaves : (steps : List Step) (b : Battle) → b.is_leaving ≡ true → Leaves (play steps b)
unfolding play
play-Leaves [] b h = h
play-Leaves (s ∷ rest) b h =
    and_plays-Leaves (play_step s b) (play rest) (λ b' w. play-Leaves rest b' w)
      (play_step-Leaves s b h)

Leaves-Fine : (start : Battle) (f : Fate) → Leaves f → Fine start f
Leaves-Fine start (plays b) h = inl h
Leaves-Fine start (aborts a) h = tt

and_plays-Fine :
    (start : Battle) (f : Fate) (rest : List Step)
    → ((b : Battle) → Keeps start b → Fine start (play rest b))
    → Fine start f
    → Fine start (and_plays f (play rest))
and_plays-Fine start (plays b) rest h (inl w) =
    Leaves-Fine start (play rest b) (play-Leaves rest b w)
and_plays-Fine start (plays b) rest h (inr w) = h b w
and_plays-Fine start (aborts a) rest h w = tt

play-Fine :
    (start : Battle) (steps : List Step) (b : Battle) → Keeps start b → Fine start (play steps b)
unfolding play
play-Fine start [] b h = inr h
play-Fine start (s ∷ rest) b h =
    and_plays-Fine start (play_step s b) rest (λ b' w. play-Fine start rest b' w)
      (play_step-Fine start s b h)

-- In a session that starts without extra frames and is not leaving, take frames, rollbacks and events
-- in any order, with any answers of GGPO and at any times. As long as the battle plays on and has not
-- begun to leave, the game has simulated just as many frames as GGPO has advanced.
pub play-InStep :
    (start b : Battle) (steps : List Step)
    → start.has_ggpo ≡ true
    → start.extra_frames ≡ 0
    → start.is_leaving ≡ false
    → play steps start ≡ plays b
    → b.is_leaving ≡ false
    → InStep start b
play-InStep start b steps g x l e staying =
    settled (subst (Fine start) e (play-Fine start steps start begun))
  where
    begun : Keeps start start
    begun = record { ggpo = g; extra = x; in_step = omega arith; staying = l }

    settled : Fine start (plays b) → InStep start b
    settled (inl leaving) = absurd (ground (arith, leaving, staying))
    settled (inr h) = h.in_step
