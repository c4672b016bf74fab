-- ===== src/Server/Sound.antt =====
-- The invariant on the lobbies of a server (src/session/sf4e__SessionServer.cxx), and the rules for the
-- functions that write lobbies.
pub mod Frame
pub mod Leaving
pub mod Joins
pub mod Handlers
pub mod Battles
pub mod Flushing
pub mod Run
use sf4_rollback_gui.Prelude.{
  ℕ, ◌+◌, ◌<◌, ◌≤◌, ◌≡◌, refl, sym, ap, subst, ◌⊎◌, inl, inr, Bool, true, false, List, [], ◌∷◌,
  ◌++◌, Option, none, some, Option-cases, Bool-cases, Str, All, length, length-append, is_empty,
  not, ◌&&◌, to_string, arith, if◌then◌else◌,
}
use sf4_rollback_gui.Prelude.Map
use sf4_rollback_gui.Prelude.Map.{Map, str_key}
use sf4_rollback_gui.Registry.{
  Lobby, LobbyMember, LobbyRegistry, LobbySettings, is_full, clear_handoffs, find_by_key, create,
  remove,
}
use sf4_rollback_gui.Registry.Create.{
  KeyBelow, new_lobby, lobbies-create, next_key-create, key-create, create-KeyBelow, find-next_key,
}
use sf4_rollback_gui.Server.State.{
  Server, Peer, peer_at, find_peer, put_peer, find_lobby, put_lobby,
}
use sf4_rollback_gui.Server.Seats.{
  seat_in_lobby, add_member, erase_member, clear_match, vacate, remove_from_lobby, seated_peer,
}

-- A lobby stands under its own key, holds no more members than it has room for, and is not empty
-- unless it is persistent.
pub record LobbyOk (e : Str × Lobby) : Type 0 where
  pub id_key : e.1.id.key ≡ e.0
  pub room : length e.1.members ≤ e.1.capacity
  pub occupied : (e.1.persistent ≡ true) ⊎ (0 < length e.1.members)

pub record IsSound (r : LobbyRegistry) : Type 0 where
  pub lobbies_ok : All LobbyOk r.lobbies
  pub keys_below : All (KeyBelow r.next_key) r.lobbies

-- What a change of a lobby must leave alone.
pub record SameSeats (l l' : Lobby) : Type 0 where
  pub same_id : l'.id ≡ l.id
  pub same_size : length l'.members ≡ length l.members
  pub same_capacity : l'.capacity ≡ l.capacity
  pub same_persistent : l'.persistent ≡ l.persistent

pub LobbyOk-same :
    {key : Str} {l l' : Lobby} → SameSeats l l' → LobbyOk (key, l) → LobbyOk (key, l')
LobbyOk-same {key} {l} {l'} same ok = record {
  id_key = ground arith;
  room = ground arith;
  occupied = ground arith;
}

-- A lookup reads the registry only.
pub find_lobby-registry :
    (key : Str) (s s' : Server) → s'.registry ≡ s.registry → find_lobby key s' ≡ find_lobby key s
unfolding find_lobby
find_lobby-registry key s s' e = ap (find_by_key key) e

pub IsSound-eq : {r r' : LobbyRegistry} → r' ≡ r → IsSound r → IsSound r'
IsSound-eq e v = subst IsSound (sym e) v

module _ (s : Server) where
  pub find-LobbyOk :
      (key : Str) (l : Lobby)
      → find_lobby key s ≡ some l
      → IsSound s.registry
      → LobbyOk (key, l) × KeyBelow s.registry.next_key (key, l)
  unfolding find_lobby find_by_key
  find-LobbyOk key l e v = (
    Map.All-find LobbyOk key s.registry.lobbies l v.lobbies_ok e,
    Map.All-find (KeyBelow s.registry.next_key) key s.registry.lobbies l v.keys_below e,
  )

  -- A lobby may be written over the one that stands under its key.
  pub put_lobby-IsSound :
      (key : Str) (l l' : Lobby)
      → find_lobby key s ≡ some l
      → LobbyOk (key, l')
      → IsSound s.registry
      → IsSound (put_lobby key l' s).registry
  unfolding put_lobby
  put_lobby-IsSound key l l' e ok v = record {
    lobbies_ok = Map.All-insert LobbyOk key l' s.registry.lobbies ok v.lobbies_ok;
    keys_below =
        Map.All-insert (KeyBelow s.registry.next_key) key l' s.registry.lobbies
          (find-LobbyOk key l e v).1 v.keys_below;
  }

  pub same-IsSound :
      (key : Str) (l l' : Lobby)
      → find_lobby key s ≡ some l
      → SameSeats l l'
      → IsSound s.registry
      → IsSound (put_lobby key l' s).registry
  same-IsSound key l l' e same v =
      put_lobby-IsSound key l l' e (LobbyOk-same same (find-LobbyOk key l e v).0) v

  pub registry-put_peer : (conn : ℕ) (p : Peer) → (put_peer conn p s).registry ≡ s.registry
  unfolding put_peer
  registry-put_peer conn p = refl

  add_member-LobbyOk :
      (conn : ℕ) (key : Str) (p : Peer) (l : Lobby)
      → length l.members < l.capacity
      → LobbyOk (key, l)
      → LobbyOk (key, add_member conn p l)
  unfolding add_member
  add_member-LobbyOk conn key p l h ok = record {
    id_key = ok.id_key;
    room =
        omega (arith, length-append l.members (record { data_of = p.data_of; conn = conn } ∷ []));
    occupied =
        inr (
          omega
            (arith, length-append l.members (record { data_of = p.data_of; conn = conn } ∷ [])));
  }

  -- A seat is taken in a lobby that has room.
  pub seat_in_lobby-IsSound :
      (conn : ℕ) (key : Str) (l : Lobby)
      → find_lobby key s ≡ some l
      → length l.members < l.capacity
      → IsSound s.registry
      → IsSound (seat_in_lobby conn key s).registry
  unfolding seat_in_lobby put_peer
  seat_in_lobby-IsSound conn key l e h v =
      rw (seat_in_lobby, e)
        (put_lobby-IsSound key l _ e (add_member-LobbyOk conn key _ l h (find-LobbyOk key l e v).0)
          v)

  pub seat_in_lobby-eq :
      (conn : ℕ) (key : Str) (l : Lobby)
      → find_lobby key s ≡ some l
      → seat_in_lobby conn key s
        ≡ put_peer conn
            (seated_peer l.id.key (peer_at conn s))
            (put_lobby key (add_member conn (peer_at conn s) l) s)
  unfolding seat_in_lobby
  seat_in_lobby-eq conn key l e = rw (seat_in_lobby, e)

  pub find_lobby-put_lobby_self :
      (key : Str) (l : Lobby) → find_lobby key (put_lobby key l s) ≡ some l
  unfolding find_lobby find_by_key put_lobby
  find_lobby-put_lobby_self key l = Map.find-insert_self key l s.registry.lobbies

  pub find_lobby-put_peer :
      (key : Str) (conn : ℕ) (p : Peer) → find_lobby key (put_peer conn p s) ≡ find_lobby key s
  unfolding find_lobby put_peer
  find_lobby-put_peer key conn p = refl

abbrev pub with_registry : LobbyRegistry → Server → Server
with_registry r s = record s { registry = r }

module _ (s : Server) where
  -- The server that has made a lobby finds it, empty.
  pub find_lobby-create :
      (c : LobbySettings)
      → IsSound s.registry
      → find_lobby (create c s.registry).0 (with_registry (create c s.registry).1 s)
        ≡ some (new_lobby c s.registry)
  unfolding find_lobby find_by_key
  find_lobby-create c v =
      rw (key-create c s.registry, lobbies-create c s.registry v.keys_below)
        (Map.find-insert_self _ _ _)

  -- A persistent lobby may be empty.
  pub create_persistent-IsSound :
      (c : LobbySettings)
      → c.persistent ≡ true
      → IsSound s.registry
      → IsSound (create c s.registry).1
  create_persistent-IsSound c h v = record {
    lobbies_ok = rw (lobbies-create c s.registry v.keys_below) (
        Map.All-insert LobbyOk (to_string s.registry.next_key) (new_lobby c s.registry)
          s.registry.lobbies (record { id_key = refl; room = omega arith; occupied = inl h })
          v.lobbies_ok);
    keys_below = create-KeyBelow c s.registry v.keys_below;
  }

  first_member-LobbyOk :
      (conn : ℕ) (c : LobbySettings) (p : Peer)
      → 0 < c.capacity
      → LobbyOk (to_string s.registry.next_key, add_member conn p (new_lobby c s.registry))
  unfolding add_member
  first_member-LobbyOk conn c p h = record {
    id_key = refl;
    room = omega arith;
    occupied = inr (omega arith);
  }

  first_seat-IsSound :
      (key : Str) (l : Lobby) (c : LobbySettings)
      → key ≡ to_string s.registry.next_key
      → LobbyOk (to_string s.registry.next_key, l)
      → IsSound s.registry
      → IsSound (put_lobby key l (with_registry (create c s.registry).1 s)).registry
  unfolding put_lobby
  first_seat-IsSound key l c e ok v =
      let n = s.registry.next_key in
      record {
        lobbies_ok =
            rw (e, lobbies-create c s.registry v.keys_below, Map.insert-insert (to_string n) l)
              (Map.All-insert LobbyOk (to_string n) l s.registry.lobbies ok v.lobbies_ok);
        keys_below = rw e (
            Map.All-insert (KeyBelow (create c s.registry).1.next_key) (to_string n) l
              (create c s.registry).1.lobbies (n, refl, omega (arith, next_key-create c s.registry))
              (create-KeyBelow c s.registry v.keys_below));
      }

  -- A new lobby is sound once its maker sits in it.
  pub create_seat-IsSound :
      (conn : ℕ) (c : LobbySettings)
      → 0 < c.capacity
      → IsSound s.registry
      → IsSound
          (seat_in_lobby conn
            (create c s.registry).0
            (with_registry (create c s.registry).1 s)).registry
  unfolding put_peer
  create_seat-IsSound conn c h v =
      rw
        (seat_in_lobby-eq (with_registry (create c s.registry).1 s) conn (create c s.registry).0
          (new_lobby c s.registry) (find_lobby-create c v))
        (first_seat-IsSound (create c s.registry).0 _ c (key-create c s.registry)
          (first_member-LobbyOk conn c _ h) v)
