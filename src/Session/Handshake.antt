-- ===== src/Session/Handshake.antt =====
-- The handshake: hello, the answer with the connection id, the join request and what becomes of it,
-- across src/session/sf4e__SessionClient.cxx and src/session/sf4e__SessionServer.cxx.
use sf4_rollback_gui.Prelude.{
  ℕ, ◌≡◌, ◌⊎◌, ◌∙◌, sym, ap, subst, inl, inr, refl, true, none, some, is_empty, to_string, Str,
}
use sf4_rollback_gui.Prelude.Map
use sf4_rollback_gui.Prelude.Map.{nat_key}
use sf4_rollback_gui.Protocol.{
  Packet, JoinResult, hello, join_req, hello_resp, join_rej, ConnectionId, SessionJoinRequest,
}
use sf4_rollback_gui.Server.State.{Server, Peer, find_peer, respond_join_reject, respond, net_call}
use sf4_rollback_gui.Server.Step.{Env, handle_packet, handle_body, handle_unknown, dispatch}
use sf4_rollback_gui.Server.Join.{greet, handle_join, handle_register, new_peer}
use sf4_rollback_gui.Server.Join.Register.{Admissible, handle_register-gate}
use sf4_rollback_gui.Client.State.{Client, Libraries, send_request, send}
use sf4_rollback_gui.Client.Connection.{now_connected, status_changed}
use sf4_rollback_gui.Client.Snapshots.{goes_on}
use sf4_rollback_gui.Client.Receive.{
  auto_join_request, handle_hello_resp, handle_join_reject, handle_message,
}
use sf4_rollback_gui.Session.{
  last-append, carrying, to_server, to_client, to_server_request, to_client_message,
}

-- The client behind the callback for a new connection, and behind the server's answer to its hello.
abbrev pub greeted : ℕ → Client → Client
greeted handle c = status_changed now_connected handle c

abbrev pub answered : Packet → Server → ℕ → Client → Client
answered p s handle c =
    handle_hello_resp (record { host = s.identity; user = to_string p.conn }) s.version
      (greeted handle c)

hello_reaches :
    (env : Env) (p : Packet) (s : Server) (handle : ℕ) (c : Client)
    → Map.find p.conn s.cid_map ≡ none
    → to_server env p (greeted handle c) s ≡ greet (carrying p hello) s
unfolding status_changed send handle_packet greet handle_body respond handle_unknown
hello_reaches env p s handle c new =
    to_server_request env p (greeted handle c) s hello (last-append c.calls (send_request hello))
    ∙ rw (handle_packet, handle_body, new, handle_unknown) refl

answer_reaches :
    (libs : Libraries) (p : Packet) (s : Server) (handle : ℕ) (c : Client)
    → to_client libs p.conn (greet (carrying p hello) s) (greeted handle c)
      ≡ goes_on (answered p s handle c)
unfolding greet respond net_call handle_message
answer_reaches libs p s handle c =
    to_client_message libs p.conn (greet (carrying p hello) s) (greeted handle c)
      (hello_resp (record { host = s.identity; user = to_string p.conn }) s.version)
      (last-append s.net _)

join_reaches :
    (env : Env) (q : Packet) (cid : ConnectionId) (t : Server) (d : Client) (version : Str)
    → Map.find q.conn t.cid_map ≡ some cid
    → is_empty d.auto_join_handoff ≡ true
    → to_server env q (handle_hello_resp cid version d) t
      ≡ handle_register cid
          (carrying q (join_req (some (auto_join_request d))))
          (auto_join_request d)
          t
unfolding handle_hello_resp send auto_join_request handle_packet handle_register handle_body
    find_peer dispatch Map.find handle_join
join_reaches env q cid t d version known plain =
    to_server_request env q (handle_hello_resp cid version d) t
      (join_req (some (auto_join_request d))) (last-append d.calls _)
    ∙ rw (handle_packet, handle_body, known, dispatch, handle_join, plain) refl

reject_reaches :
    (libs : Libraries) (conn : ℕ) (e : JoinResult) (t : Server) (d : Client)
    → to_client libs conn (respond_join_reject conn e t) d ≡ handle_join_reject e d
unfolding respond_join_reject respond net_call handle_message
reject_reaches libs conn e t d =
    to_client_message libs conn (respond_join_reject conn e t) d (join_rej e) (last-append t.net _)

-- The packet of a later message on the same connection.
abbrev pub later : Packet → ℕ → ℕ → ℕ → Packet
later p number now_ms wall = record p { message_number = number; now_ms = now_ms; wall = wall }

-- What the handshake comes to: a refusal of the join request that reaches the client, or a peer of the
-- client's name, port and connection id.
abbrev pub Met : Libraries → ℕ → SessionJoinRequest → Client → Server → Server → Type 0
Met libs conn r d s s' =
    ((¬ Admissible r s) × ((e : JoinResult) × (to_client libs conn s' d ≡ handle_join_reject e d)))
    ⊎ (Admissible r s
        × ((peer : Peer) × (find_peer conn s' ≡ some peer)
            × (peer.data_of.name ≡ d.name)
            × (peer.data_of.port ≡ d.reported_ggpo_port)
            × (peer.data_of.conn_id ≡ d.cid)))

registered :
    (libs : Libraries) (q : Packet) (cid : ConnectionId) (d : Client) (t : Server)
    → find_peer q.conn t ≡ none
    → d.cid ≡ cid
    → let p = carrying q (join_req (some (auto_join_request d))) in
      Met libs q.conn (auto_join_request d) d t (handle_register cid p (auto_join_request d) t)
unfolding new_peer auto_join_request
registered libs q cid d t new ids =
    elim (handle_register-gate cid (carrying q (join_req (some r))) r t new) [
      | inl (not_ok, (e, refused)) ↦ inl (not_ok, (e, rejected e refused))
      | inr ((peer, found, filled), _, _, ok) ↦ inr (
        ok,
        (
          peer,
          found,
          ap (λ x. x.name) filled,
          ap (λ x. x.port) filled,
          ap (λ x. x.conn_id) filled ∙ sym ids,
        ),
      )
    ]
  where
    r : SessionJoinRequest
    r = auto_join_request d

    rejected :
        (e : JoinResult)
        → handle_register cid (carrying q (join_req (some r))) r t ≡ respond_join_reject q.conn e t
        → to_client libs q.conn (handle_register cid (carrying q (join_req (some r))) r t) d
          ≡ handle_join_reject e d
    rejected e refused =
        ap (λ x. to_client libs q.conn x d) refused ∙ reject_reaches libs q.conn e t d

-- A client that holds no handoff token and is called back for its new connection, on a server that does not know the connection,
-- says hello, is given a connection id, and asks to join under its own name, port and hash. If the
-- server may admit the request, it has then registered a peer of that name and port, with the
-- connection id that the client holds. If not, the client is handed the refusal.
pub handshake :
    (env : Env) (libs : Libraries) (p : Packet) (number now_ms wall : ℕ) (s : Server) (handle : ℕ)
    (c : Client)
    → Map.find p.conn s.cid_map ≡ none
    → find_peer p.conn s ≡ none
    → is_empty c.auto_join_handoff ≡ true
    → let s' = to_server env p (greeted handle c) s in
      let d = answered p s handle c in
      (to_client libs p.conn s' (greeted handle c) ≡ goes_on d)
      × Met libs p.conn (auto_join_request c) d s (to_server env (later p number now_ms wall) d s')
unfolding handle_hello_resp send auto_join_request status_changed find_peer greet respond net_call
handshake env libs p number now_ms wall s handle c new unknown plain =
    let s' = greet (carrying p hello) s in
    let cid : ConnectionId = record { host = s.identity; user = to_string p.conn } in
    let d = answered p s handle c in
    let q = later p number now_ms wall in
    let hello_in = hello_reaches env p s handle c new in
    let join_in =
      join_reaches env q cid s' (greeted handle c) s.version
        (Map.find-insert_self p.conn cid s.cid_map) plain in
    (
      ap (λ t. to_client libs p.conn t (greeted handle c)) hello_in
          ∙ answer_reaches libs p s handle c,
      subst (Met libs p.conn (auto_join_request c) d s)
          (sym (ap (to_server env q d) hello_in ∙ join_in))
          (registered libs q cid d s' unknown refl),
    )
