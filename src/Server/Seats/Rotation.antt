-- ===== src/Server/Seats/Rotation.antt =====
-- The winner-stays rotation, HandleResults of src/session/sf4e__SessionServer.cxx.
use sf4_rollback_gui.Prelude.{
  ℕ, zero, suc, ◌+◌, ◌≡◌, refl, ap, ◌∙◌, List, [], ◌∷◌, ◌++◌, some, pos, length, length-append,
  get_elem?, remove_at, arith, Option, none, true, false,
}
use sf4_rollback_gui.Protocol.{cleared_match}
use sf4_rollback_gui.Registry.{Lobby, LobbyMember, clear_handoffs}
use sf4_rollback_gui.Server.Seats.{clear_match, rotate, handle_results}

remove_at-append :
    (i : ℕ) (ms : List LobbyMember) (x y : LobbyMember)
    → get_elem? ms i ≡ some x
    → remove_at (ms ++ y ∷ []) i ≡ remove_at ms i ++ y ∷ []
remove_at-append i [] x y e = absurd (cc)
remove_at-append zero (m ∷ ms) x y e = refl
remove_at-append (suc i) (m ∷ ms) x y e = ap (◌∷◌ m) (remove_at-append i ms x y e)

length-remove_at :
    (i : ℕ) (ms : List LobbyMember) (x : LobbyMember)
    → get_elem? ms i ≡ some x
    → length (remove_at ms i) + 1 ≡ length ms
length-remove_at i [] x e = absurd (cc)
length-remove_at zero (m ∷ ms) x e = omega arith
length-remove_at (suc i) (m ∷ ms) x e = omega (arith, length-remove_at i ms x e)

-- The members of a lobby after a report.
abbrev pub Rotated : Lobby → LobbyMember → ℕ → Option Lobby → Type 0
Rotated l loser i none = ⊥
Rotated l loser i (some l') =
    (l'.members ≡ remove_at l.members i ++ loser ∷ [])
    × (length l'.members ≡ length l.members)
    × (l'.match_data ≡ cleared_match)
    × (l'.pending_handoffs ≡ [])

-- When the reported side is a member's index and the copy of that member finds room in the vector, that
-- member goes to the end of the queue and the others keep their order, so nobody comes or goes; the
-- match setup and the handoffs are cleared. When the vector has to be reallocated, the behaviour is
-- undefined.
pub handle_results-rotates :
    (i : ℕ) (l : Lobby) (loser : LobbyMember)
    → get_elem? l.members i ≡ some loser
    → Rotated l loser i (handle_results false (pos i) l) × (handle_results true (pos i) l ≡ none)
unfolding handle_results clear_handoffs clear_match rotate
handle_results-rotates i l loser e =
    rw (handle_results, e, rotate, e)
      ((remove_at-append i l.members loser loser e, size, refl, refl), refl)
  where
    size : length (remove_at (l.members ++ loser ∷ []) i) ≡ length l.members
    size =
        rw (remove_at-append i l.members loser loser e) (
          length-append (remove_at l.members i) (loser ∷ []) ∙ length-remove_at i l.members loser e)
