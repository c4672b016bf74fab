-- ===== src/Server/Join/Seat.antt =====
-- What the takeover of a seat in SessionServer::Step of src/session/sf4e__SessionServer.cxx leaves
-- behind.
use sf4_rollback_gui.Prelude.{
  ℕ, ◌≡◌, ◌≢◌, refl, ap, ◌∙◌, inl, inr, Bool, true, false, not, ◌&&◌, if◌then◌else◌, Option, none,
  List, [], ◌∷◌, some, Option-cases, Bool-cases, get_elem?, get_elem?-set, get_elem?-set_other,
  is_empty, ◌==◌, arith, ==_iff, subst, sym,
}
use sf4_rollback_gui.Prelude.Map
use sf4_rollback_gui.Prelude.Map.{nat_key, str_key}
use sf4_rollback_gui.Protocol.{ConnectionId, SessionJoinRequest, Packet}
use sf4_rollback_gui.Registry.{Lobby, LobbyMember, find_by_key}
use sf4_rollback_gui.Server.State.{
  Server, Peer, find_peer, put_peer, find_lobby, put_lobby, respond, respond_null_lobby_update,
}
use sf4_rollback_gui.Server.Join.{
  release_old, open_forensic, take_over, game_peer, swap_seat, take_seat,
}

-- The forensic record is all that changes with it.
open_forensic-keeps :
    (now : ℕ) (l : Lobby) (s : Server)
    → ((open_forensic now l s).registry ≡ s.registry) × ((open_forensic now l s).peers ≡ s.peers)
unfolding open_forensic
open_forensic-keeps now l s = go l.members refl
  where
    go :
        (ms : List LobbyMember)
        → l.members ≡ ms
        → ((open_forensic now l s).registry ≡ s.registry)
          × ((open_forensic now l s).peers ≡ s.peers)
    go [] e = rw (open_forensic, e) (refl, refl)
    go (a ∷ []) e = rw (open_forensic, e) (refl, refl)
    go (a ∷ b ∷ rest) e = elim (Bool-cases (is_empty l.pending_handoffs)) [
      | inl f ↦ rw (open_forensic, e, f) (refl, refl)
      | inr f ↦ rw (open_forensic, e, f) (refl, refl)
    ]

release_old-registry : (old conn : ℕ) (s : Server) → (release_old old conn s).registry ≡ s.registry
unfolding put_peer respond_null_lobby_update respond release_old
release_old-registry old conn s = elim (Option-cases (find_peer old s)) [
  | inl e ↦ rw (release_old, e)
  | inr (p, e) ↦ elim (Bool-cases (old == conn)) [
    | inl f ↦ rw (release_old, e, f)
    | inr f ↦ rw (release_old, e, f)
  ]
]

-- A peer that sits in no lobby any more.
abbrev pub without_lobby : Option Peer → Option Peer
without_lobby none = none
without_lobby (some p) = some (record p { lobby_key = [] })

-- The peers after the release of the seat's holder.
find-release_old :
    (old conn c : ℕ) (s : Server)
    → find_peer c (release_old old conn s)
      ≡ (if old == c && not (old == conn) then without_lobby (find_peer c s) else find_peer c s)
unfolding find_peer put_peer respond_null_lobby_update respond release_old
find-release_old old conn c s = elim (Option-cases (find_peer old s)) [
  | inl e ↦ rw (release_old, e) (untouched e)
  | inr (p, e) ↦ elim (Bool-cases (old == conn)) [
    | inl f ↦ rw (release_old, e, f) (sym (kept (old == c)))
    | inr f ↦
        rw (release_old, e, f)
          (Map.find-insert old c (record p { lobby_key = [] }) s.peers ∙ moved p e)
  ]
]
  where
    kept :
        (b : Bool)
        → (if b && false then without_lobby (find_peer c s) else find_peer c s) ≡ find_peer c s
    kept true = refl
    kept false = refl

    untouched :
        find_peer old s ≡ none
        → find_peer c s
          ≡ (if old == c && not (old == conn) then without_lobby (find_peer c s) else find_peer c s)
    untouched e = elim (Bool-cases (old == c)) [
      | inl h ↦
          let gone : find_peer c s ≡ none =
            subst (λ k. find_peer k s ≡ none) ((==_iff old c).0 h) e in
          rw gone (ground arith)
      | inr h ↦ rw h refl
    ]

    moved :
        (p : Peer)
        → find_peer old s ≡ some p
        → (if old == c then some (record p { lobby_key = [] }) else find_peer c s)
          ≡ (if old == c && true then without_lobby (find_peer c s) else find_peer c s)
    moved p e = elim (Bool-cases (old == c)) [
      | inl h ↦
          let held : find_peer c s ≡ some p =
            subst (λ k. find_peer k s ≡ some p) ((==_iff old c).0 h) e in
          rw (h, held) refl
      | inr h ↦ rw h refl
    ]

module _ (cid : ConnectionId) (p : Packet) (r : SessionJoinRequest) (i : ℕ) (m : LobbyMember)
    (l : Lobby) (s : Server) where
  -- The server before the forensic record is opened.
  abbrev released : Server
  released = release_old m.conn p.conn (put_peer p.conn (game_peer cid p r l m) s)

  find_lobby-take_seat :
      find_lobby r.lobby.key (take_seat cid p r i m l s) ≡ some (swap_seat cid p r i m l)
  unfolding take_seat find_lobby find_by_key put_lobby
  find_lobby-take_seat =
      ap (find_by_key r.lobby.key)
        (open_forensic-keeps p.now_ms (swap_seat cid p r i m l)
          (put_lobby r.lobby.key (swap_seat cid p r i m l) released)).0
      ∙ Map.find-insert_self r.lobby.key (swap_seat cid p r i m l) released.registry.lobbies

  find_peer-take_seat :
      (conn : ℕ) → find_peer conn (take_seat cid p r i m l s) ≡ find_peer conn released
  unfolding take_seat find_peer put_lobby
  find_peer-take_seat conn =
      ap (λ ps. Map.find conn ps)
        (open_forensic-keeps p.now_ms (swap_seat cid p r i m l)
          (put_lobby r.lobby.key (swap_seat cid p r i m l) released)).1

  take_seat_others :
      (c : ℕ)
      → find_peer c (take_seat cid p r i m l s) ≡ (
          if p.conn == c
          then some (game_peer cid p r l m)
          else if m.conn == c
          then without_lobby (find_peer c s)
          else find_peer c s)
  unfolding find_peer put_peer
  take_seat_others c =
      find_peer-take_seat c
      ∙ find-release_old m.conn p.conn c (put_peer p.conn (game_peer cid p r l m) s)
      ∙ rw (Map.find-insert p.conn c (game_peer cid p r l m) s.peers)
          (settled (find_peer c s) (game_peer cid p r l m))
    where
      settled :
          (old : Option Peer) (g : Peer)
          → (if m.conn == c && not (m.conn == p.conn)
              then without_lobby (if p.conn == c then some g else old)
              else if p.conn == c
              then some g
              else old)
            ≡ (if p.conn == c then some g else if m.conn == c then without_lobby old else old)
      settled old g = ground (arith, ==_iff p.conn c, ==_iff m.conn c, ==_iff m.conn p.conn)

-- When a connection takes over an occupied seat, the lobby's member there is that connection under the
-- old member's name, and every other member is untouched. The connection is registered in that lobby
-- under that name, also if it held the seat itself; another connection that held the seat is in no
-- lobby, if it is registered; and every third connection's peer is untouched.
pub take_seat-hands_over :
    (cid : ConnectionId) (p : Packet) (r : SessionJoinRequest) (i j c : ℕ) (m : LobbyMember)
    (l : Lobby) (s : Server)
    → get_elem? l.members i ≡ some m
    → i ≢ j
    → ((l' : Lobby) × (find_lobby r.lobby.key (take_seat cid p r i m l s) ≡ some l')
        × (get_elem? l'.members i ≡ some (take_over cid p r m))
        × (get_elem? l'.members j ≡ get_elem? l.members j))
      × ((take_over cid p r m).conn ≡ p.conn)
      × ((take_over cid p r m).data_of.name ≡ m.data_of.name)
      × (find_peer c (take_seat cid p r i m l s) ≡ (
          if p.conn == c
          then some (game_peer cid p r l m)
          else if m.conn == c
          then without_lobby (find_peer c s)
          else find_peer c s))
      × ((game_peer cid p r l m).lobby_key ≡ l.id.key)
      × ((game_peer cid p r l m).data_of.name ≡ m.data_of.name)
unfolding take_over game_peer swap_seat
take_seat-hands_over cid p r i j c m l s seat other = (
  (
    swap_seat cid p r i m l,
    find_lobby-take_seat cid p r i m l s,
    get_elem?-set l.members i m (take_over cid p r m) seat,
    get_elem?-set_other l.members i j (take_over cid p r m) other,
  ),
  refl,
  refl,
  take_seat_others cid p r i m l s c,
  refl,
  refl,
)
