-- ===== src/Server/Chat/Forward.antt =====
-- Messages from one player's game to another's (src/session/sf4e__SessionServer.cxx, MT_FORWARD).
use sf4_rollback_gui.Prelude.{
  ℕ, zero, suc, ◌≡◌, ◌≢◌, sym, subst, ap, ◌∙◌, ◌⊎◌, inl, inr, true, false, List, [], ◌∷◌, ◌++◌,
  some, Option-cases, Bool-cases, str_eqb, str_ne, str_eqb_iff, str_eqb_refl, get_elem?, take,
  to_string, All, arith,
}
use sf4_rollback_gui.Protocol.{ConnectionId, connection_id_eqb, ForwardMessage, Packet, forwarded}
use sf4_rollback_gui.Registry.{Lobby, LobbyMember}
use sf4_rollback_gui.Server.State.{Server, Peer, find_lobby, respond, send_message}
use sf4_rollback_gui.Server.Chat.{Json, find_conn_id, is_fraudulent, handle_forward}

pub connection_id_eqb_sound : (a b : ConnectionId) → connection_id_eqb a b ≡ true → a ≡ b
unfolding connection_id_eqb
connection_id_eqb_sound a b e =
    ground (arith, str_eqb_iff a.host b.host, str_eqb_iff a.user b.user, e)

connection_id_eqb_refl : (a : ConnectionId) → connection_id_eqb a a ≡ true
unfolding connection_id_eqb
connection_id_eqb_refl a = rw (str_eqb_refl a.host, str_eqb_refl a.user)

-- What is found is a member with that id.
find_conn_id-member :
    (cid : ConnectionId) (ms : List LobbyMember) (d : LobbyMember)
    → find_conn_id cid ms ≡ some d
    → (i : ℕ) × (get_elem? ms i ≡ some d) × (d.data_of.conn_id ≡ cid)
unfolding find_conn_id
find_conn_id-member cid [] d e = absurd (cc)
find_conn_id-member cid (m ∷ ms) d e = elim (Bool-cases (connection_id_eqb m.data_of.conn_id cid)) [
  | inl hit ↦
      let same : m ≡ d = ground (arith, hit, e) in
      (
        0,
        ap some same,
        ap (λ x. x.data_of.conn_id) (sym same) ∙ connection_id_eqb_sound m.data_of.conn_id cid hit,
      )
  | inr miss ↦
      let (i, at, cid_eq) = find_conn_id-member cid ms d (ground (arith, miss, e)) in
      (suc i, at, cid_eq)
]

-- A source that names this server names the sender's own connection.
is_honest :
    (p : Packet) (m : ForwardMessage) (s : Server)
    → is_fraudulent p m s ≡ false
    → (m.src.host ≢ s.identity) ⊎ (m.src.user ≡ to_string p.conn)
unfolding is_fraudulent
is_honest p m s e = elim (Bool-cases (str_eqb m.src.host s.identity)) [
  | inl here ↦ inr (ground (arith, e, here, str_eqb_iff m.src.user (to_string p.conn)))
  | inr other ↦ inl (str_ne m.src.host s.identity other)
]

-- A message to be forwarded is dropped, or it goes, as the JSON library prints it again and to nobody
-- else, to a member of the sender's own lobby whose connection id is its destination; the destination
-- then names this server, and the source names another server or the sender's own
-- connection.
pub handle_forward-stays_inside :
    (json : Json) (p : Packet) (m : ForwardMessage) (peer : Peer) (s : Server)
    → (handle_forward json p (some m) peer s ≡ s)
      ⊎ ((l : Lobby) × (i : ℕ) × (d : LobbyMember) × (find_lobby peer.lobby_key s ≡ some l)
          × (get_elem? l.members i ≡ some d)
          × (d.data_of.conn_id ≡ m.dest)
          × (m.dest.host ≡ s.identity)
          × ((m.src.host ≢ s.identity) ⊎ (m.src.user ≡ to_string p.conn))
          × (handle_forward json p (some m) peer s ≡ record s {
            net = s.net ++ send_message d.conn (forwarded (json.reprint p.raw)) ∷ [];
          }))
unfolding handle_forward respond
handle_forward-stays_inside json p m peer s = elim (Bool-cases (is_fraudulent p m s)) [
  | inl bad ↦ inl (rw (handle_forward, bad))
  | inr honest ↦ elim (Bool-cases (str_eqb m.dest.host s.identity)) [
    | inr away ↦ inl (rw (handle_forward, honest, away))
    | inl here ↦ elim (Option-cases (find_lobby peer.lobby_key s)) [
      | inl gone ↦ inl (rw (handle_forward, honest, here, gone))
      | inr (l, found) ↦ elim (Option-cases (find_conn_id m.dest l.members)) [
        | inl nobody ↦ inl (rw (handle_forward, honest, here, found, nobody))
        | inr (d, to) ↦
            let (i, at, cid_eq) = find_conn_id-member m.dest l.members d to in
            inr (
              l,
              i,
              d,
              found,
              at,
              cid_eq,
              (str_eqb_iff m.dest.host s.identity).0 here,
              is_honest p m s honest,
              rw (handle_forward, honest, here, found, to),
            )
      ]
    ]
  ]
]

head_id :
    (m d : LobbyMember) (cid : ConnectionId)
    → some m ≡ some d
    → d.data_of.conn_id ≡ cid
    → m.data_of.conn_id ≡ cid
head_id m d cid at same = cc

find_conn_id-first :
    (cid : ConnectionId) (ms : List LobbyMember) (i : ℕ) (d : LobbyMember)
    → get_elem? ms i ≡ some d
    → d.data_of.conn_id ≡ cid
    → All (λ n. n.data_of.conn_id ≢ cid) (take i ms)
    → find_conn_id cid ms ≡ some d
unfolding find_conn_id
find_conn_id-first cid [] i d at same before = absurd (cc)
find_conn_id-first cid (m ∷ ms) zero d at same before =
    let hit : connection_id_eqb m.data_of.conn_id cid ≡ true =
      subst (λ c. connection_id_eqb m.data_of.conn_id c ≡ true) (head_id m d cid at same)
        (connection_id_eqb_refl m.data_of.conn_id) in
    rw hit at
find_conn_id-first cid (m ∷ ms) (suc i) d at same before =
    elim (Bool-cases (connection_id_eqb m.data_of.conn_id cid)) [
      | inl hit ↦ absurd (before.0 (connection_id_eqb_sound m.data_of.conn_id cid hit))
      | inr miss ↦ rw miss (find_conn_id-first cid ms i d at same before.1)
    ]

is_fair :
    (p : Packet) (m : ForwardMessage) (s : Server)
    → (m.src.host ≢ s.identity) ⊎ (m.src.user ≡ to_string p.conn)
    → is_fraudulent p m s ≡ false
unfolding is_fraudulent
is_fair p m s (inl other) = ground (arith, other, str_eqb_iff m.src.host s.identity)
is_fair p m s (inr own) = ground (arith, own, str_eqb_iff m.src.user (to_string p.conn))

-- A message to be forwarded whose destination names this server, and whose source is of another server
-- or the sender's own connection, does reach the first member of the sender's lobby with the
-- destination's id, as the JSON library prints it again.
pub handle_forward-delivers :
    (json : Json) (p : Packet) (m : ForwardMessage) (peer : Peer) (s : Server) (l : Lobby) (i : ℕ)
    (d : LobbyMember)
    → find_lobby peer.lobby_key s ≡ some l
    → get_elem? l.members i ≡ some d
    → d.data_of.conn_id ≡ m.dest
    → All (λ n. n.data_of.conn_id ≢ m.dest) (take i l.members)
    → m.dest.host ≡ s.identity
    → (m.src.host ≢ s.identity) ⊎ (m.src.user ≡ to_string p.conn)
    → handle_forward json p (some m) peer s
      ≡ record s { net = s.net ++ send_message d.conn (forwarded (json.reprint p.raw)) ∷ [] }
unfolding handle_forward respond
handle_forward-delivers json p m peer s l i d found at same before here source = rw (
  handle_forward,
  is_fair p m s source,
  (str_eqb_iff m.dest.host s.identity).1 here,
  found,
  find_conn_id-first m.dest l.members i d at same before,
)
