-- ===== src/Server/Seats/Leaver.antt =====
-- What a lobby looks like once a member has left it (RemoveFromLobby of
-- src/session/sf4e__SessionServer.cxx).
use sf4_rollback_gui.Prelude.{
  ℕ, ◌≡◌, ◌≢◌, subst, ◌⊎◌, inl, inr, true, false, List, [], ◌∷◌, some, none, Bool-cases, Str,
  is_empty, ◌==◌, All, arith,
}
use sf4_rollback_gui.Prelude.Map
use sf4_rollback_gui.Prelude.Map.{nat_key, str_key}
use sf4_rollback_gui.Protocol.{cleared_match}
use sf4_rollback_gui.Registry.{Lobby, LobbyMember, clear_handoffs}
use sf4_rollback_gui.Server.State.{Server, find_lobby}
use sf4_rollback_gui.Server.Seats.{erase_member, clear_match}

-- No two members have the same connection.
abbrev pub DistinctMembers : List LobbyMember → Type 0
DistinctMembers [] = Unit
DistinctMembers (m ∷ ms) = All (λ n. n.conn ≢ m.conn) ms × DistinctMembers ms

erase_member-gone :
    (conn : ℕ) (ms : List LobbyMember)
    → DistinctMembers ms
    → All (λ n. n.conn ≢ conn) (erase_member conn ms)
unfolding erase_member
erase_member-gone conn [] d = tt
erase_member-gone conn (m ∷ ms) d = elim (Bool-cases (m.conn == conn)) [
  | inl hit ↦ rw hit (subst (λ c. All (λ n. n.conn ≢ c) ms) (eq_of hit) d.0)
  | inr miss ↦ rw miss ((λ e. ne_of miss e), erase_member-gone conn ms d.1)
]
  where
    eq_of : m.conn == conn ≡ true → m.conn ≡ conn
    eq_of h = ground (arith, h)

    ne_of : m.conn == conn ≡ false → m.conn ≢ conn
    ne_of h e = absurd (ground (arith, h, e))

-- The lobby is gone, or it has the members that are left and no match set up.
abbrev pub Vacated : List LobbyMember → Str → Lobby → Server → Type 0
Vacated left key l s' =
    ((is_empty left ≡ true) × (l.persistent ≡ false) × (find_lobby key s' ≡ none))
    ⊎ ((l' : Lobby) × (find_lobby key s' ≡ some l')
        × (l'.members ≡ left)
        × (l'.match_data ≡ cleared_match)
        × (l'.pending_handoffs ≡ [])
        × (l'.dirty ≡ true))

-- The lobby with the members that are left.
abbrev left_lobby : ℕ → Lobby → Lobby
left_lobby conn l =
    record (clear_handoffs (clear_match (record l { members = erase_member conn l.members }))) {
      dirty = true;
    }
