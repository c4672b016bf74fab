-- ===== src/Server/Sound/Battles.antt =====
-- The handlers of the match cycle of src/session/sf4e__SessionServer.cxx keep the lobbies sound.
use sf4_rollback_gui.Prelude.{
  Bool, ◌⊎◌, subst, ℕ, zero, suc, ◌+◌, ◌<◌, ◌≡◌, refl, ◌∙◌, inl, inr, true, List, [], ◌∷◌, ◌++◌,
  Option, none, some, Option-cases, ℤ, pos, negsuc, Str, length, length-append, length-map,
  length-remove_at, get_elem?, arith,
}
use sf4_rollback_gui.Protocol.{ConfirmedCharaConditions, MatchData, Packet}
use sf4_rollback_gui.Registry.{Lobby, LobbyMember, clear_handoffs}
use sf4_rollback_gui.Server.State.{net_call, Server, Peer, find_lobby}
use sf4_rollback_gui.Server.Seats.{clear_match, rotate, handle_results}
use sf4_rollback_gui.Server.Battle.{
  set_match, handle_setchara, handle_setenv, handle_setstage, mark_loaded, all_loaded,
  handle_battle_loaded, ready_lobby, handle_lobby_ready, clear_loaded, ended_lobby, saw_ended,
  handle_battle_ended, handle_reportresults,
}
use sf4_rollback_gui.Server.Sound.{
  IsSound, SameSeats, IsSound-eq, find_lobby-registry, same-IsSound,
}
use sf4_rollback_gui.Server.Sound.Frame.{registry-saw_ended}

-- The loser only moves.
length-rotate : (i : ℕ) (ms : List LobbyMember) → length (rotate i ms) ≡ length ms
unfolding rotate
length-rotate i ms = elim (Option-cases (get_elem? ms i)) [
  | inl e ↦ rw (rotate, e)
  | inr (m, e) ↦
      rw (rotate, e)
        (omega (
          arith,
          length-append ms (m ∷ []),
          length-remove_at (ms ++ m ∷ []) i
              (omega (arith, length-append ms (m ∷ []), in_range i ms m e)),
        ))
]
  where
    in_range :
        (j : ℕ) (xs : List LobbyMember) (x : LobbyMember) → get_elem? xs j ≡ some x → j < length xs
    in_range j [] x e = absurd (cc)
    in_range zero (y ∷ ys) x e = omega arith
    in_range (suc j) (y ∷ ys) x e = omega (arith, in_range j ys x e)

-- A change of what is not the seats.
module _ (key : Str) (l : Lobby) where
  match-SameSeats : (m : MatchData) → SameSeats l (record l { match_data = m; dirty = true })
  match-SameSeats m = record {
    same_id = refl;
    same_size = refl;
    same_capacity = refl;
    same_persistent = refl;
  }

  length-mark_loaded : (conn : ℕ) (ms : List LobbyMember) → length (mark_loaded conn ms) ≡ length ms
  unfolding mark_loaded
  length-mark_loaded conn [] = refl
  length-mark_loaded conn (m ∷ ms) = ground (arith, length-mark_loaded conn ms)

  loaded-SameSeats :
      (conn : ℕ)
      → SameSeats l (record l {
        members = mark_loaded conn l.members;
        send_battle_synced = all_loaded (mark_loaded conn l.members);
        dirty = true;
      })
  loaded-SameSeats conn = record {
    same_id = refl;
    same_size = length-mark_loaded conn l.members;
    same_capacity = refl;
    same_persistent = refl;
  }

  ready-SameSeats : (i n : ℕ) → SameSeats l (ready_lobby i n l)
  unfolding ready_lobby
  ready-SameSeats i n = record {
    same_id = refl;
    same_size = refl;
    same_capacity = refl;
    same_persistent = refl;
  }

  ended-SameSeats : (seed : ℕ) → SameSeats l (ended_lobby seed l)
  unfolding ended_lobby clear_handoffs clear_loaded
  ended-SameSeats seed = record {
    same_id = refl;
    same_size = length-map _ l.members;
    same_capacity = refl;
    same_persistent = refl;
  }

  rotated-SameSeats :
      (i : ℕ)
      → SameSeats l
          (record (clear_handoffs (clear_match (record l { members = rotate i l.members }))) {
            dirty = true;
          })
  unfolding clear_handoffs clear_match
  rotated-SameSeats i = record {
    same_id = refl;
    same_size = length-rotate i l.members;
    same_capacity = refl;
    same_persistent = refl;
  }

  whole-SameSeats : SameSeats l (record l { dirty = true })
  whole-SameSeats = record {
    same_id = refl;
    same_size = refl;
    same_capacity = refl;
    same_persistent = refl;
  }

  results-cases :
      (reallocates : Bool) (i : ℕ)
      → (handle_results reallocates (pos i) l ≡ none)
        ⊎ (handle_results reallocates (pos i) l ≡ some l)
        ⊎ (handle_results reallocates (pos i) l
            ≡ some (clear_handoffs (clear_match (record l { members = rotate i l.members }))))
  unfolding handle_results
  results-cases reallocates i = ground arith

  same_lobby : (o : Option Lobby) (a b : Lobby) → o ≡ some a → o ≡ some b → a ≡ b
  same_lobby o a b e f = cc

  results-SameSeats :
      (reallocates : Bool) (loser : ℤ) (l' : Lobby)
      → handle_results reallocates loser l ≡ some l'
      → SameSeats l (record l' { dirty = true })
  unfolding handle_results
  results-SameSeats reallocates (negsuc n) l' e =
      subst (λ x. SameSeats l (record x { dirty = true })) (same_lobby (some l) l l' refl e)
        whole-SameSeats
  results-SameSeats reallocates (pos i) l' e = elim (results-cases reallocates i) [
    | inl f ↦ absurd (cc (e, f))
    | inr (inl f) ↦
        subst (λ x. SameSeats l (record x { dirty = true }))
          (same_lobby (handle_results reallocates (pos i) l) l l' f e) whole-SameSeats
    | inr (inr f) ↦
        subst (λ x. SameSeats l (record x { dirty = true }))
          (same_lobby (handle_results reallocates (pos i) l) _ l' f e) (rotated-SameSeats i)
  ]

set_match-IsSound :
    (key : Str) (m : MatchData) (l : Lobby) (s : Server)
    → find_lobby key s ≡ some l
    → IsSound s.registry
    → IsSound (set_match key m l s).registry
unfolding set_match
set_match-IsSound key m l s e v = same-IsSound s key l _ e (match-SameSeats key l m) v

module _ (p : Packet) (peer : Peer) (s : Server) (v : IsSound s.registry) where
  pub handle_setchara-IsSound :
      (r : Option ConfirmedCharaConditions) → IsSound (handle_setchara p r peer s).registry
  unfolding handle_setchara
  handle_setchara-IsSound none = v
  handle_setchara-IsSound (some c) = grind (arith, set_match-IsSound)

  pub handle_setenv-IsSound : (r : Option ℕ) → IsSound (handle_setenv p r peer s).registry
  unfolding handle_setenv
  handle_setenv-IsSound none = v
  handle_setenv-IsSound (some c) = grind (arith, set_match-IsSound)

  pub handle_setstage-IsSound : (r : Option ℤ) → IsSound (handle_setstage p r peer s).registry
  unfolding handle_setstage
  handle_setstage-IsSound none = v
  handle_setstage-IsSound (some c) = grind (arith, set_match-IsSound)

  pub handle_battle_loaded-IsSound : IsSound (handle_battle_loaded p peer s).registry
  unfolding handle_battle_loaded
  handle_battle_loaded-IsSound = grind (arith, same-IsSound, loaded-SameSeats)

  pub handle_lobby_ready-IsSound :
      (r : Option (Unit {0})) → IsSound (handle_lobby_ready p r peer s).registry
  unfolding handle_lobby_ready
  handle_lobby_ready-IsSound none = v
  handle_lobby_ready-IsSound (some u) = grind (arith, same-IsSound, ready-SameSeats)

  pub handle_reportresults-IsSound :
      (reallocates : Packet → Bool) (r : Option ℤ)
      → IsSound (handle_reportresults reallocates p r peer s).registry
  unfolding handle_reportresults net_call
  handle_reportresults-IsSound reallocates none = v
  handle_reportresults-IsSound reallocates (some i) =
      elim (Option-cases (find_lobby peer.lobby_key s)) [
        | inl e ↦ rw (handle_reportresults, e) v
        | inr (l, e) ↦ elim (Option-cases (handle_results (reallocates p) i l)) [
          | inl f ↦ rw (handle_reportresults, e, f) v
          | inr (l', f) ↦
              rw (handle_reportresults, e, f)
                (same-IsSound s peer.lobby_key l _ e
                  (results-SameSeats peer.lobby_key l (reallocates p) i l' f) v)
        ]
      ]

  pub handle_battle_ended-IsSound :
      (gen : ℕ → ℕ) → IsSound (handle_battle_ended gen p peer s).registry
  unfolding handle_battle_ended
  handle_battle_ended-IsSound gen = elim (Option-cases (find_lobby peer.lobby_key s)) [
    | inl e ↦ rw (handle_battle_ended, e) v
    | inr (l, e) ↦
        let s' : Server = record (saw_ended l.id.key s) {
          seeds_drawn = (saw_ended l.id.key s).seeds_drawn + 1;
        } in
        rw (handle_battle_ended, e)
          (same-IsSound s' peer.lobby_key l _
            (find_lobby-registry peer.lobby_key s s' (registry-saw_ended l.id.key s) ∙ e)
            (ended-SameSeats peer.lobby_key l _) (IsSound-eq (registry-saw_ended l.id.key s) v))
  ]
