-- ===== src/Server/Sound/Leaving.antt =====
-- A member who leaves (RemoveFromLobby of src/session/sf4e__SessionServer.cxx).
use sf4_rollback_gui.Prelude.{
  ℕ, ◌≤◌, ◌≡◌, inl, inr, true, false, List, [], ◌∷◌, some, Option-cases, Bool-cases, Str, length,
  is_empty, not, ◌&&◌, arith,
}
use sf4_rollback_gui.Prelude.Map
use sf4_rollback_gui.Prelude.Map.{Map, str_key}
use sf4_rollback_gui.Registry.{Lobby, LobbyMember, clear_handoffs, remove}
use sf4_rollback_gui.Registry.Create.{KeyBelow}
use sf4_rollback_gui.Server.State.{Server, find_peer, put_peer, find_lobby}
use sf4_rollback_gui.Server.Seats.{erase_member, clear_match, vacate, remove_from_lobby}
use sf4_rollback_gui.Server.Sound.{
  LobbyOk, IsSound, find-LobbyOk, put_lobby-IsSound, registry-put_peer,
}

module _ (s : Server) where
  length-erase_member-le :
      (conn : ℕ) (ms : List LobbyMember) → length (erase_member conn ms) ≤ length ms
  unfolding erase_member
  length-erase_member-le conn [] = omega arith
  length-erase_member-le conn (m ∷ ms) = ground (arith, length-erase_member-le conn ms)

  remove-IsSound : (key : Str) → IsSound s.registry → IsSound (remove key s.registry)
  unfolding remove
  remove-IsSound key v = record {
    lobbies_ok = Map.All-erase LobbyOk key s.registry.lobbies v.lobbies_ok;
    keys_below = Map.All-erase (KeyBelow s.registry.next_key) key s.registry.lobbies v.keys_below;
  }

  -- A lobby from which a member has gone, with someone left or persistent.
  left-LobbyOk :
      (conn : ℕ) (key : Str) (l : Lobby)
      → (is_empty (erase_member conn l.members) && not l.persistent) ≡ false
      → LobbyOk (key, l)
      → LobbyOk (
        key,
        record (clear_handoffs (clear_match (record l { members = erase_member conn l.members }))) {
          dirty = true;
        },
      )
  unfolding clear_match clear_handoffs
  left-LobbyOk conn key l stays ok = record {
    id_key = ok.id_key;
    room = omega (arith, ok.room, length-erase_member-le conn l.members);
    occupied = ground (arith, stays);
  }

  vacate-IsSound :
      (conn : ℕ) (key : Str) (l : Lobby)
      → find_lobby key s ≡ some l
      → IsSound s.registry
      → IsSound (vacate conn key l s).registry
  unfolding vacate
  vacate-IsSound conn key l e v =
      elim (Bool-cases (is_empty (erase_member conn l.members) && not l.persistent)) [
        | inl gone ↦ rw gone (remove-IsSound key v)
        | inr stays ↦ rw stays (
            put_lobby-IsSound s key l _ e
              (left-LobbyOk conn key l stays (find-LobbyOk s key l e v).0) v)
      ]

module _ (s : Server) where
  pub remove_from_lobby-IsSound :
      (conn : ℕ) → IsSound s.registry → IsSound (remove_from_lobby conn s).registry
  unfolding remove_from_lobby
  remove_from_lobby-IsSound conn v = elim (Option-cases (find_peer conn s)) [
    | inl e ↦ rw (remove_from_lobby, e) v
    | inr (p, e) ↦ elim (Bool-cases (is_empty p.lobby_key)) [
      | inl lounge ↦ rw (remove_from_lobby, e, lounge) v
      | inr seated ↦
          let freed = put_peer conn (record p { lobby_key = [] }) s in
          let v' : IsSound freed.registry =
            rw (registry-put_peer s conn (record p { lobby_key = [] })) v in
          elim (Option-cases (find_lobby p.lobby_key freed)) [
            | inl f ↦ rw (remove_from_lobby, e, seated, f) v'
            | inr (l, f) ↦
                rw (remove_from_lobby, e, seated, f) (vacate-IsSound freed conn p.lobby_key l f v')
          ]
    ]
  ]
