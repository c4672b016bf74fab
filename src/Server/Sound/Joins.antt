-- ===== src/Server/Sound/Joins.antt =====
-- Join requests of src/session/sf4e__SessionServer.cxx keep the lobbies sound.
use sf4_rollback_gui.Prelude.{
  ℕ, ◌≡◌, refl, ◌∙◌, inl, inr, List, Option, none, some, Option-cases, Bool-cases, Str, length-set,
  get_elem?, is_empty, arith,
}
use sf4_rollback_gui.Protocol.{ConnectionId, SessionJoinRequest, Packet}
use sf4_rollback_gui.Registry.{Lobby, LobbyMember, PendingHandoff, is_full}
use sf4_rollback_gui.Server.State.{
  Server, Peer, respond_null_lobby_update, respond_join_reject, put_peer, find_lobby, put_lobby,
}
use sf4_rollback_gui.Server.Join.{
  redeem, swap_seat, release_old, game_peer, take_seat, claim_seat, hash_mismatch, handle_handoff,
  seat_or_reject, choose_lobby, handle_register, handle_join,
}
use sf4_rollback_gui.Server.Sound.{
  IsSound, SameSeats, same-IsSound, seat_in_lobby-IsSound, find_lobby-put_lobby_self,
  find_lobby-registry, IsSound-eq, registry-put_peer,
}
use sf4_rollback_gui.Server.Sound.Frame.{registry-release_old, registry-open_forensic}

seat_or_reject-IsSound :
    (conn : ℕ) (peer : Peer) (key : Str) (s : Server)
    → IsSound s.registry
    → IsSound (seat_or_reject conn peer key s).registry
unfolding seat_or_reject respond_join_reject is_full
seat_or_reject-IsSound conn peer key s v = elim (Option-cases (find_lobby key s)) [
  | inl e ↦ rw (seat_or_reject, e) v
  | inr (l, e) ↦ elim (Bool-cases (is_empty peer.lobby_key)) [
    | inl lounge ↦ elim (Bool-cases (is_full l)) [
      | inl full ↦ rw (seat_or_reject, e, lounge, full) v
      | inr free ↦
          rw (seat_or_reject, e, lounge, free)
            (seat_in_lobby-IsSound s conn key l e (ground (arith, free)) v)
    ]
    | inr seated ↦ rw (seat_or_reject, e, seated) v
  ]
]

choose_lobby-IsSound :
    (p : Packet) (r : SessionJoinRequest) (peer : Peer) (s : Server)
    → IsSound s.registry
    → IsSound (choose_lobby p r peer s).registry
unfolding choose_lobby respond_null_lobby_update respond_join_reject
choose_lobby-IsSound p r peer s v = grind (arith, seat_or_reject-IsSound)

handle_register-IsSound :
    (cid : ConnectionId) (p : Packet) (r : SessionJoinRequest) (s : Server)
    → IsSound s.registry
    → IsSound (handle_register cid p r s).registry
unfolding handle_register respond_join_reject
handle_register-IsSound cid p r s v = grind (arith, choose_lobby-IsSound, registry-put_peer)

swap_seat-SameSeats :
    (cid : ConnectionId) (p : Packet) (r : SessionJoinRequest) (i : ℕ) (m : LobbyMember) (l : Lobby)
    → SameSeats l (swap_seat cid p r i m l)
unfolding swap_seat
swap_seat-SameSeats cid p r i m l = record {
  same_id = refl;
  same_size = length-set l.members i _;
  same_capacity = refl;
  same_persistent = refl;
}

take_seat-IsSound :
    (cid : ConnectionId) (p : Packet) (r : SessionJoinRequest) (i : ℕ) (m : LobbyMember) (l : Lobby)
    (s : Server)
    → find_lobby r.lobby.key s ≡ some l
    → IsSound s.registry
    → IsSound (take_seat cid p r i m l s).registry
unfolding take_seat
take_seat-IsSound cid p r i m l s e v =
    let registered = put_peer p.conn (game_peer cid p r l m) s in
    let released = release_old m.conn p.conn registered in
    let same : released.registry ≡ s.registry =
      registry-release_old m.conn p.conn registered ∙ registry-put_peer s p.conn _ in
    rw registry-open_forensic (
      same-IsSound released r.lobby.key l _ (find_lobby-registry r.lobby.key s released same ∙ e)
        (swap_seat-SameSeats cid p r i m l) (IsSound-eq same v))

claim_seat-IsSound :
    (cid : ConnectionId) (p : Packet) (r : SessionJoinRequest) (seat : Option ℕ) (l : Lobby)
    (s : Server)
    → find_lobby r.lobby.key s ≡ some l
    → IsSound s.registry
    → IsSound (claim_seat cid p r seat l s).registry
unfolding claim_seat respond_join_reject
claim_seat-IsSound cid p r none l s e v = v
claim_seat-IsSound cid p r (some i) l s e v = elim (Option-cases (get_elem? l.members i)) [
  | inl f ↦ rw (claim_seat, f) v
  | inr (m, f) ↦ rw (claim_seat, f) (take_seat-IsSound cid p r i m l s e v)
]

redeemed-SameSeats :
    (l : Lobby) (hs : List PendingHandoff) → SameSeats l (record l { pending_handoffs = hs })
redeemed-SameSeats l hs = record {
  same_id = refl;
  same_size = refl;
  same_capacity = refl;
  same_persistent = refl;
}

handle_handoff-IsSound :
    (cid : ConnectionId) (p : Packet) (r : SessionJoinRequest) (s : Server)
    → IsSound s.registry
    → IsSound (handle_handoff cid p r s).registry
unfolding handle_handoff respond_join_reject
handle_handoff-IsSound cid p r s v = elim (Bool-cases (hash_mismatch s r.sidecar_hash)) [
  | inl bad ↦ rw bad v
  | inr good ↦ elim (Option-cases (find_lobby r.lobby.key s)) [
    | inl e ↦ rw (good, handle_handoff, e) v
    | inr (l, e) ↦
        let left = (redeem r.handoff p.now_ms l.pending_handoffs).1 in
        let l' : Lobby = record l { pending_handoffs = left } in
        let s' = put_lobby r.lobby.key l' s in
        let v' : IsSound s'.registry =
          same-IsSound s r.lobby.key l l' e (redeemed-SameSeats l left) v in
        rw (good, handle_handoff, e)
          (claim_seat-IsSound cid p r (redeem r.handoff p.now_ms l.pending_handoffs).0 l' s'
            (find_lobby-put_lobby_self s r.lobby.key l') v')
  ]
]

pub handle_join-IsSound :
    (cid : ConnectionId) (p : Packet) (r : Option SessionJoinRequest) (s : Server)
    → IsSound s.registry
    → IsSound (handle_join cid p r s).registry
unfolding handle_join respond_join_reject
handle_join-IsSound cid p none s v = v
handle_join-IsSound cid p (some r) s v = elim (Bool-cases (is_empty r.handoff)) [
  | inl e ↦ rw e (handle_register-IsSound cid p r s v)
  | inr e ↦ rw e (handle_handoff-IsSound cid p r s v)
]
