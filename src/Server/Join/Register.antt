-- ===== src/Server/Join/Register.antt =====
-- The registration of a connection by its first join request (MT_SESSION_JOINREQ in
-- src/session/sf4e__SessionServer.cxx).
use sf4_rollback_gui.Prelude.{
  ℕ, ◌<◌, ◌≡◌, ◌≢◌, refl, sym, ap, ◌∙◌, ◌⊎◌, inl, inr, true, false, not, ◌&&◌, [], ◌∷◌, some, none,
  Option-cases, Bool-cases, Str, str_eqb, str_eqb_iff, str_ne, is_empty, length, leb, ◌==◌, All,
  arith,
}
use sf4_rollback_gui.Prelude.Map
use sf4_rollback_gui.Prelude.Map.{Map, nat_key}
use sf4_rollback_gui.Protocol.{
  ConnectionId, SessionJoinRequest, Packet, JoinResult, MemberData, lobby_id_eqb, null_lobby_id,
}
use sf4_rollback_gui.Registry.{is_full}
use sf4_rollback_gui.Server.State.{
  Server, Peer, find_peer, put_peer, peer_at, find_lobby, put_lobby, respond, respond_join_reject,
  respond_null_lobby_update, default_key,
}
use sf4_rollback_gui.Server.Seats.{seat_in_lobby, seated_peer}
use sf4_rollback_gui.Server.Join.{
  is_name_taken, hash_mismatch, registration_error, new_peer, seat_or_reject, choose_lobby,
  handle_register,
}

-- The connection is registered with that data.
abbrev pub IsRegistered : ℕ → MemberData → Server → Type 0
IsRegistered conn d s = (q : Peer) × (find_peer conn s ≡ some q) × (q.data_of ≡ d)

seat_in_lobby-IsRegistered :
    (conn : ℕ) (d : MemberData) (key : Str) (s : Server)
    → IsRegistered conn d s
    → IsRegistered conn d (seat_in_lobby conn key s)
unfolding seat_in_lobby find_peer put_peer put_lobby peer_at seated_peer
seat_in_lobby-IsRegistered conn d key s (q, e, same) = elim (Option-cases (find_lobby key s)) [
  | inl gone ↦ rw (seat_in_lobby, gone) (q, e, same)
  | inr (l, there) ↦
      rw (seat_in_lobby, there, peer_at, e)
        (seated_peer l.id.key q, Map.find-insert_self conn (seated_peer l.id.key q) s.peers, same)
]

seat_or_reject-IsRegistered :
    (conn : ℕ) (peer : Peer) (d : MemberData) (key : Str) (s : Server)
    → IsRegistered conn d s
    → IsRegistered conn d (seat_or_reject conn peer key s)
unfolding seat_or_reject respond_join_reject respond find_peer
seat_or_reject-IsRegistered conn peer d key s known = elim (Option-cases (find_lobby key s)) [
  | inl gone ↦ rw (seat_or_reject, gone) known
  | inr (l, there) ↦ elim (Bool-cases (is_empty peer.lobby_key)) [
    | inr seated ↦ rw (seat_or_reject, there, seated) known
    | inl free ↦ elim (Bool-cases (is_full l)) [
      | inl full ↦ rw (seat_or_reject, there, free, full) known
      | inr room ↦
          rw (seat_or_reject, there, free, room) (seat_in_lobby-IsRegistered conn d key s known)
    ]
  ]
]

choose_lobby-IsRegistered :
    (p : Packet) (r : SessionJoinRequest) (peer : Peer) (d : MemberData) (s : Server)
    → IsRegistered p.conn d s
    → IsRegistered p.conn d (choose_lobby p r peer s)
unfolding choose_lobby respond_join_reject respond_null_lobby_update respond find_peer
choose_lobby-IsRegistered p r peer d s known =
    elim (Bool-cases (lobby_id_eqb r.lobby null_lobby_id)) [
      | inl anywhere ↦ elim (Option-cases (default_key s)) [
        | inl lounge ↦ rw (choose_lobby, anywhere, lounge) known
        | inr (key, e) ↦
            rw (choose_lobby, anywhere, e) (seat_or_reject-IsRegistered p.conn peer d key s known)
      ]
      | inr named ↦ elim (Option-cases (find_lobby r.lobby.key s)) [
        | inl gone ↦ rw (choose_lobby, named, gone) known
        | inr (l, there) ↦
            rw (choose_lobby, named, there)
              (seat_or_reject-IsRegistered p.conn peer d r.lobby.key s known)
      ]
    ]

is_name_taken-All :
    (name : Str) (es : Map ℕ Peer)
    → is_name_taken name es ≡ false
    → All (λ e. e.1.data_of.name ≢ name) es
unfolding is_name_taken
is_name_taken-All name [] e = tt
is_name_taken-All name ((conn, p) ∷ es) e = elim (Bool-cases (str_eqb p.data_of.name name)) [
  | inl same ↦ absurd (ground (arith, e, same))
  | inr other ↦
      (str_ne p.data_of.name name other, is_name_taken-All name es (ground (arith, e, other)))
]

-- What the gate has checked.
abbrev pub Admissible : SessionJoinRequest → Server → Type 0
Admissible r s =
    ((s.max_peers ≡ 0) ⊎ (length s.peers < s.max_peers))
    × (r.username ≢ [])
    × All (λ e. e.1.data_of.name ≢ r.username) s.peers
    × ((r.sidecar_hash ≡ []) ⊎ ((s.sidecar_hash ≡ []) ⊎ (r.sidecar_hash ≡ s.sidecar_hash)))

is_empty-nil : (x : Str) → is_empty x ≡ true → x ≡ []
is_empty-nil [] e = refl
is_empty-nil (c ∷ x) e = absurd (cc)

nil-is_empty : (x : Str) → is_empty x ≡ false → x ≢ []
nil-is_empty [] e q = absurd (cc)
nil-is_empty (c ∷ x) e q = absurd (cc)

-- The four tests fail one by one.
gates :
    (r : SessionJoinRequest) (s : Server)
    → registration_error r s ≡ none
    → ((not (s.max_peers == 0) && leb s.max_peers (length s.peers)) ≡ false)
      × ((not (is_empty r.sidecar_hash) && hash_mismatch s r.sidecar_hash) ≡ false)
      × (is_empty r.username ≡ false)
      × (is_name_taken r.username s.peers ≡ false)
unfolding registration_error
gates r s e = (ground (arith, e), ground (arith, e), ground (arith, e), ground (arith, e))

hash_fits :
    (r : SessionJoinRequest) (s : Server)
    → (not (is_empty r.sidecar_hash) && hash_mismatch s r.sidecar_hash) ≡ false
    → (r.sidecar_hash ≡ []) ⊎ ((s.sidecar_hash ≡ []) ⊎ (r.sidecar_hash ≡ s.sidecar_hash))
unfolding hash_mismatch
hash_fits r s e = elim (Bool-cases (is_empty r.sidecar_hash)) [
  | inl none_sent ↦ inl (is_empty-nil r.sidecar_hash none_sent)
  | inr sent ↦ elim (Bool-cases (is_empty s.sidecar_hash)) [
    | inl open_server ↦ inr (inl (is_empty-nil s.sidecar_hash open_server))
    | inr pinned ↦
        inr (inr (ground (arith, e, sent, pinned, str_eqb_iff r.sidecar_hash s.sidecar_hash)))
  ]
]

registration_error-Admissible :
    (r : SessionJoinRequest) (s : Server) → registration_error r s ≡ none → Admissible r s
registration_error-Admissible r s e =
    let (room, hash, named, free) = gates r s e in
    (
      ground (arith, room),
      nil-is_empty r.username named,
      is_name_taken-All r.username s.peers free,
      hash_fits r s hash,
    )

name_free :
    (name : Str) (es : Map ℕ Peer)
    → All (λ e. e.1.data_of.name ≢ name) es
    → is_name_taken name es ≡ false
unfolding is_name_taken
name_free name [] h = refl
name_free name ((conn, p) ∷ es) h =
    ground (arith, name_free name es h.1, h.0, str_eqb_iff p.data_of.name name)

not_empty : (x : Str) → x ≢ [] → is_empty x ≡ false
not_empty [] ne = absurd (ne refl)
not_empty (c ∷ x) ne = refl

hash_passes :
    (r : SessionJoinRequest) (s : Server)
    → (r.sidecar_hash ≡ []) ⊎ ((s.sidecar_hash ≡ []) ⊎ (r.sidecar_hash ≡ s.sidecar_hash))
    → (not (is_empty r.sidecar_hash) && hash_mismatch s r.sidecar_hash) ≡ false
unfolding hash_mismatch
hash_passes r s (inl e) = rw e
hash_passes r s (inr (inl e)) = ground (arith, ap is_empty e)
hash_passes r s (inr (inr e)) = ground (arith, (str_eqb_iff r.sidecar_hash s.sidecar_hash).1 e)

Admissible-passes :
    (r : SessionJoinRequest) (s : Server) → Admissible r s → registration_error r s ≡ none
unfolding registration_error
Admissible-passes r s (room, named, free, hash) =
    let has_room : (not (s.max_peers == 0) && leb s.max_peers (length s.peers)) ≡ false =
      ground (arith, room) in
    rw (
      has_room,
      hash_passes r s hash,
      not_empty r.username named,
      name_free r.username s.peers free,
    )

refusal : (e : JoinResult) → none ≡ some e → ⊥
refusal e q = absurd (cc)

-- The first join request of a connection is admissible if the server has room, the name is not empty and
-- no peer has it, and the request's hash is the server's unless one of the two is empty. An admissible
-- one registers the connection under its connection id and the requested name, whatever becomes of its
-- wish for a lobby; another one is answered with a refusal and changes nothing else.
pub handle_register-gate :
    (cid : ConnectionId) (p : Packet) (r : SessionJoinRequest) (s : Server)
    → find_peer p.conn s ≡ none
    → ((¬ Admissible r s)
        × ((e : JoinResult) × (handle_register cid p r s ≡ respond_join_reject p.conn e s)))
      ⊎ (IsRegistered p.conn (new_peer cid p r).data_of (handle_register cid p r s)
          × ((new_peer cid p r).data_of.name ≡ r.username)
          × ((new_peer cid p r).data_of.conn_id ≡ cid)
          × Admissible r s)
unfolding handle_register new_peer find_peer put_peer
handle_register-gate cid p r s new = elim (Option-cases (registration_error r s)) [
  | inr (e, refused) ↦ inl (
    (λ ok. refusal e (sym (Admissible-passes r s ok) ∙ refused)),
    (e, rw (handle_register, new, refused)),
  )
  | inl passed ↦
      let peer = new_peer cid p r in
      inr (
        rw (handle_register, new, passed)
            (choose_lobby-IsRegistered p r peer peer.data_of (put_peer p.conn peer s)
              (peer, Map.find-insert_self p.conn peer s.peers, refl)),
        refl,
        refl,
        registration_error-Admissible r s passed,
      )
]
