-- ===== src/Game/States/Places.antt =====
-- The places of the pool of saved states in src/sf4e/sf4e__Game__Battle__System.cxx.
use sf4_rollback_gui.Prelude.{
  ℕ, zero, suc, ◌+◌, ◌≤◌, ◌<◌, ◌≡◌, refl, List, [], ◌∷◌, Option, none, some, set, length, get_elem?,
  Option-cases, inl, inr, arith,
}
use sf4_rollback_gui.Game.States.{SaveState, free_place}

module _ {S : Type 0} where
  -- The number of places in use.
  unfoldable pub live : List (Option (SaveState S)) → ℕ
  live [] = 0
  live (none ∷ states) = live states
  live (some s ∷ states) = suc (live states)

  pub free_place-unused :
      (i : ℕ) (states : List (Option (SaveState S)))
      → free_place states ≡ some i
      → get_elem? states i ≡ some none
  unfolding free_place
  free_place-unused i [] e = absurd (cc)
  free_place-unused i (none ∷ states) e = ground arith
  free_place-unused zero (some t ∷ states) e = elim (Option-cases (free_place states)) [
    | inl f ↦ absurd (ground (arith, f))
    | inr (j, f) ↦ absurd (ground (arith, f))
  ]
  free_place-unused (suc i) (some t ∷ states) e = elim (Option-cases (free_place states)) [
    | inl f ↦ absurd (ground (arith, f))
    | inr (j, f) ↦ free_place-unused i states (ground (arith, f))
  ]

  pub free_place-none :
      (states : List (Option (SaveState S)))
      → free_place states ≡ none
      → live states ≡ length states
  unfolding free_place live
  free_place-none [] e = refl
  free_place-none (none ∷ states) e = absurd (cc)
  free_place-none (some t ∷ states) e = elim (Option-cases (free_place states)) [
    | inl f ↦ ground (arith, free_place-none states f)
    | inr (j, f) ↦ absurd (ground (arith, f))
  ]

  pub live-le : (states : List (Option (SaveState S))) → live states ≤ length states
  unfolding live
  live-le [] = omega arith
  live-le (none ∷ states) = ground (arith, live-le states)
  live-le (some t ∷ states) = ground (arith, live-le states)

  pub live-set-le :
      (i : ℕ) (o : Option (SaveState S)) (states : List (Option (SaveState S)))
      → live (set states i o) ≤ live states + live (o ∷ [])
  unfolding live
  live-set-le i o [] = ground arith
  live-set-le zero none (none ∷ states) = omega arith
  live-set-le zero none (some t ∷ states) = omega arith
  live-set-le zero (some s) (none ∷ states) = omega arith
  live-set-le zero (some s) (some t ∷ states) = omega arith
  live-set-le (suc i) o (none ∷ states) = live-set-le i o states
  live-set-le (suc i) o (some t ∷ states) = ground (arith, live-set-le i o states)

  pub free_place-some :
      (i : ℕ) (states : List (Option (SaveState S)))
      → free_place states ≡ some i
      → live states < length states
  unfolding free_place live
  free_place-some i [] e = absurd (cc)
  free_place-some i (none ∷ states) e = ground (arith, live-le states)
  free_place-some i (some t ∷ states) e = elim (Option-cases (free_place states)) [
    | inl f ↦ absurd (ground (arith, f))
    | inr (j, f) ↦ ground (arith, free_place-some j states f)
  ]
