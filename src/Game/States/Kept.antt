-- ===== src/Game/States/Kept.antt =====
-- What the pool of saved states of src/sf4e/sf4e__Game__Battle__System.cxx promises GGPO.
use sf4_rollback_gui.Prelude.{
  ℕ, suc, ◌+◌, ◌≤◌, ◌≡◌, ◌≢◌, ◌↔◌, subst, refl, sym, ap, ◌∙◌, List, [], ◌∷◌, Option, none, some, ℤ,
  set, length, get_elem?, get_elem?-set, get_elem?-set_other, length-set, All, Option-cases, inl,
  inr, arith,
}
use sf4_rollback_gui.Game.States.{
  SaveState, Saves, free_place, checksum_save, save_game_state, load_game_state, free_buffer,
}
use sf4_rollback_gui.Game.States.Places.{
  live, free_place-unused, free_place-none, live-set-le, free_place-some,
}

-- What GGPO asks for in a match.
pub data GgpoRequest (S : Type 0) : Type 0 where
  saves : ℤ → SaveState S → GgpoRequest S
  loads frees : ℕ → GgpoRequest S

module _ {S : Type 0} where
  unfoldable pub request : GgpoRequest S → Saves S → Option (Saves S)
  request (saves frame s) v = elim (save_game_state frame s v) [ none ↦ none | some r ↦ some r.1.1 ]
  request (loads i) v = some v
  request (frees i) v = some (free_buffer i v)

  unfoldable pub requests : List (GgpoRequest S) → Saves S → Option (Saves S)
  requests [] v = some v
  requests (r ∷ rs) v = elim (request r v) [ none ↦ none | some v' ↦ requests rs v' ]

  -- Everything but the freeing of the place `i`.
  unfoldable pub Spares : ℕ → GgpoRequest S → Type 0
  Spares i (saves frame s) = Unit
  Spares i (loads j) = Unit
  Spares i (frees j) = j ≢ i

  unfoldable pub loaded : ℕ → Option (Saves S) → Option (SaveState S)
  loaded i none = none
  loaded i (some v) = load_game_state i v

  checksum_save-save_states :
      (frame : ℤ) (s : SaveState S) (v : Saves S)
      → (checksum_save frame s v).1.save_states ≡ v.save_states
  unfolding checksum_save
  checksum_save-save_states frame s v = ground arith

  -- The places after a save.
  pub saved_states :
      (frame : ℤ) (s : SaveState S) (v : Saves S) (i : ℕ)
      → free_place v.save_states ≡ some i
      → request (saves frame s) v
        ≡ some (checksum_save frame s (record v { save_states = set v.save_states i (some s) })).1
  unfolding request save_game_state
  saved_states frame s v i e = rw (request, save_game_state, e) refl

  load-states :
      (i : ℕ) (s : SaveState S) (v : Saves S)
      → load_game_state i v ≡ some s
      → get_elem? v.save_states i ≡ some (some s)
  unfolding load_game_state
  load-states i s v e = elim (Option-cases (get_elem? v.save_states i)) [
    | inl f ↦ absurd (ground (arith, f))
    | inr (o, f) ↦ ground (arith, f)
  ]

  states-load :
      (i : ℕ) (s : SaveState S) (v : Saves S)
      → get_elem? v.save_states i ≡ some (some s)
      → load_game_state i v ≡ some s
  unfolding load_game_state
  states-load i s v e = rw (load_game_state, e) refl

  -- The state of a free_place, and room for more saves.
  record Room (i : ℕ) (s : SaveState S) (n : ℕ) (v : Saves S) : Type 0 where
    stored : get_elem? v.save_states i ≡ some (some s)
    room : live v.save_states + n ≤ length v.save_states

  save-Room :
      (i j n : ℕ) (s t : SaveState S) (frame : ℤ) (v : Saves S)
      → free_place v.save_states ≡ some j
      → Room i s (suc n) v
      → Room i s n
          (checksum_save frame t (record v { save_states = set v.save_states j (some t) })).1
  unfolding live
  save-Room i j n s t frame v e h = record {
    stored =
        rw
          (checksum_save-save_states frame t
            (record v { save_states = set v.save_states j (some t) }))
          (get_elem?-set_other v.save_states j i (some t) distinct ∙ h.stored);
    room =
        rw
          (
            checksum_save-save_states frame t
                (record v { save_states = set v.save_states j (some t) }),
            length-set v.save_states j (some t),
          )
          (ground (arith, live-set-le j (some t) v.save_states, h.room));
  }
    where
      distinct : j ≢ i
      distinct same = ground (arith, free_place-unused j v.save_states e, h.stored, same)

  free-Room :
      (i j n : ℕ) (s : SaveState S) (v : Saves S)
      → j ≢ i
      → Room i s (suc n) v
      → Room i s n (free_buffer j v)
  unfolding live free_buffer
  free-Room i j n s v distinct h = record {
    stored = get_elem?-set_other v.save_states j i none distinct ∙ h.stored;
    room =
        rw (length-set v.save_states j none)
          (ground (arith, live-set-le j none v.save_states, h.room));
  }

  request-Room :
      (i n : ℕ) (s : SaveState S) (r : GgpoRequest S) (v : Saves S)
      → Spares i r
      → Room i s (suc n) v
      → (v' : Saves S) × ((request r v ≡ some v') × Room i s n v')
  unfolding Spares request
  request-Room i n s (loads j) v h room =
      (v, (refl, record { stored = room.stored; room = ground (arith, room.room) }))
  request-Room i n s (frees j) v h room = (free_buffer j v, (refl, free-Room i j n s v h room))
  request-Room i n s (saves frame t) v h room = elim (Option-cases (free_place v.save_states)) [
    | inl e ↦ absurd (ground (arith, free_place-none v.save_states e, room.room))
    | inr (j, e) ↦ (
      (checksum_save frame t (record v { save_states = set v.save_states j (some t) })).1,
      (saved_states frame t v j e, save-Room i j n s t frame v e room),
    )
  ]

  requests-spare :
      (i : ℕ) (s : SaveState S) (rs : List (GgpoRequest S)) (v : Saves S)
      → All (Spares i) rs
      → Room i s (length rs) v
      → loaded i (requests rs v) ≡ some s
  unfolding requests loaded
  requests-spare i s [] v h room = states-load i s v room.stored
  requests-spare i s (r ∷ rs) v h room =
      go (request-Room i (length rs) s r v h.0 room) (λ v'. requests-spare i s rs v' h.1)
    where
      go :
          (v' : Saves S) × ((request r v ≡ some v') × Room i s (length rs) v')
          → ((v' : Saves S) → Room i s (length rs) v' → loaded i (requests rs v') ≡ some s)
          → loaded i (requests (r ∷ rs) v) ≡ some s
      go (v', (e, room')) rest = rw (requests, e) (rest v' room')

  -- The state that a save leaves behind.
  after_save : ℤ → SaveState S → Saves S → ℕ → Saves S
  after_save frame s v i =
      (checksum_save frame s (record v { save_states = set v.save_states i (some s) })).1

  after_save-Room :
      (frame : ℤ) (s : SaveState S) (v : Saves S) (i n : ℕ)
      → free_place v.save_states ≡ some i
      → live v.save_states + suc n ≤ length v.save_states
      → Room i s n (after_save frame s v i)
  unfolding after_save live
  after_save-Room frame s v i n e h = record {
    stored =
        rw
          (checksum_save-save_states frame s
            (record v { save_states = set v.save_states i (some s) }))
          (get_elem?-set v.save_states i none (some s) (free_place-unused i v.save_states e));
    room =
        rw
          (
            checksum_save-save_states frame s
                (record v { save_states = set v.save_states i (some s) }),
            length-set v.save_states i (some s),
          )
          (ground (arith, live-set-le i (some s) v.save_states, h));
  }

  saved :
      (frame : ℤ) (s : SaveState S) (v v' : Saves S) (i checksum : ℕ)
      → save_game_state frame s v ≡ some (i, (checksum, v'))
      → (free_place v.save_states ≡ some i) × (after_save frame s v i ≡ v')
  unfolding save_game_state after_save
  saved frame s v v' i checksum e = elim (Option-cases (free_place v.save_states)) [
    | inl f ↦ absurd (ground (arith, f))
    | inr (j, f) ↦ (
      f ∙ ap some (ap (λ r. r.0) (same j f)),
      ap (after_save frame s v) (sym (ap (λ r. r.0) (same j f))) ∙ ap (λ r. r.1.1) (same j f),
    )
  ]
    where
      same :
          (j : ℕ)
          → free_place v.save_states ≡ some j
          → ◌≡◌ {A = ℕ × (ℕ × Saves S)}
              (j, checksum_save frame s (record v { save_states = set v.save_states j (some s) }))
              (i, (checksum, v'))
      same j f = cc

  -- Save a state, and let requests follow that do not free its place, so few that the pool has a place
  -- for each of them. Then the place was not in use before, all of the requests succeed, and the load
  -- of the place after them gives the saved state.
  pub save_game_state-keeps :
      (frame : ℤ) (s : SaveState S) (v v' : Saves S) (i checksum : ℕ) (rs : List (GgpoRequest S))
      → save_game_state frame s v ≡ some (i, (checksum, v'))
      → All (Spares i) rs
      → live v.save_states + suc (length rs) ≤ length v.save_states
      → (load_game_state i v ≡ none) × (loaded i (requests rs v') ≡ some s)
  unfolding load_game_state
  save_game_state-keeps frame s v v' i checksum rs e h room = go (saved frame s v v' i checksum e)
    where
      go :
          (free_place v.save_states ≡ some i) × (after_save frame s v i ≡ v')
          → (load_game_state i v ≡ none) × (loaded i (requests rs v') ≡ some s)
      go (f, g) = (
        rw (load_game_state, free_place-unused i v.save_states f) refl,
        requests-spare i s rs v' h
            (subst (Room i s (length rs)) g (after_save-Room frame s v i (length rs) f room)),
      )

  -- A save ends the match exactly if all places are in use.
  pub save_game_state-exhausted :
      (frame : ℤ) (s : SaveState S) (v : Saves S)
      → (save_game_state frame s v ≡ none) ↔ (live v.save_states ≡ length v.save_states)
  unfolding save_game_state
  save_game_state-exhausted frame s v = elim (Option-cases (free_place v.save_states)) [
    | inl e ↦ ((λ f. free_place-none v.save_states e), (λ f. rw (save_game_state, e) refl))
    | inr (j, e) ↦ (
      (λ f. absurd (ground (arith, e, f))),
      (λ f. absurd (ground (arith, free_place-some j v.save_states e, f))),
    )
  ]
