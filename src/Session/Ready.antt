-- ===== src/Session/Ready.antt =====
-- A player's ready request and its acknowledgement, across src/session/sf4e__SessionClient.cxx and
-- src/session/sf4e__SessionServer.cxx.
use sf4_rollback_gui.Prelude.{
  ℕ, ◌≡◌, ◌∙◌, ap, refl, true, false, some, ℤ, pos, minus_one, if◌then◌else◌, int_eqb, int_eqb_iff,
  Str, arith,
}
use sf4_rollback_gui.Prelude.Map
use sf4_rollback_gui.Prelude.Map.{nat_key, str_key}
use sf4_rollback_gui.Protocol.{
  Packet, lobby_ready, ConnectionId, Sides, side, set_side, LobbyData, MatchData,
}
use sf4_rollback_gui.Registry.{Lobby, to_lobby_data, find_by_key}
use sf4_rollback_gui.Server.State.{Server, Peer, find_peer, find_lobby, put_lobby}
use sf4_rollback_gui.Server.Step.{Env, handle_packet, handle_body, dispatch, handle_registered}
use sf4_rollback_gui.Server.Battle.{playing_side, ready_lobby, handle_lobby_ready}
use sf4_rollback_gui.Client.State.{Client, Libraries, send}
use sf4_rollback_gui.Client.Requests.{lobby_ready_request}
use sf4_rollback_gui.Client.Receive.{own_side, is_outstanding, acknowledge, handle_data_update}
use sf4_rollback_gui.Session.{last-append, to_server, to_server_request}

abbrev pub ready_client : Libraries → Client → Client
ready_client libs c = (lobby_ready_request libs c).1

side-set_side : (i : ℕ) (x : ℤ) (v : Sides ℤ) → side i (set_side i x v) ≡ x
side-set_side i x v = ground arith

ready_reaches :
    (env : Env) (libs : Libraries) (p : Packet) (c : Client) (s : Server) (cid : ConnectionId)
    (peer : Peer) (l : Lobby) (i : ℕ)
    → Map.find p.conn s.cid_map ≡ some cid
    → find_peer p.conn s ≡ some peer
    → find_lobby peer.lobby_key s ≡ some l
    → playing_side p.conn l ≡ some i
    → to_server env p (ready_client libs c) s
      ≡ put_lobby peer.lobby_key (ready_lobby i p.message_number l) s
unfolding lobby_ready_request send handle_packet handle_body dispatch handle_registered
    handle_lobby_ready
ready_reaches env libs p c s cid peer l i known registered there plays =
    to_server_request env p (ready_client libs c) s (lobby_ready (some tt)) (last-append c.calls _)
    ∙ rw
        (
          handle_packet, handle_body, known, dispatch, registered, handle_registered,
          handle_lobby_ready, there, plays,
        )
        refl

-- An update that shows the awaited number at the client's own side ends the wait; another one does not.
acknowledges :
    (l : LobbyData) (m : MatchData) (c : Client) (i number : ℕ)
    → c.outstanding_ready ≡ pos number
    → own_side 2 0 c.name l.members ≡ some i
    → (handle_data_update l m c).outstanding_ready
      ≡ (if int_eqb (side i m.ready_message_num) (pos number) then minus_one else pos number)
unfolding handle_data_update acknowledge is_outstanding
acknowledges l m c i number waits seat =
    rw (handle_data_update, acknowledge, is_outstanding, waits, seat) (ground arith)

-- The client's ready request goes out as the message that the packet is, and the sender's seat in its
-- lobby is the first of the two players' seats with the client's name. Then the lobby is due for an
-- update; with the update, whatever relay it names, the client's request is no longer outstanding; and
-- an update from before, where the seat had another number, leaves it outstanding.
pub ready_acknowledged :
    (env : Env) (libs : Libraries) (p : Packet) (c : Client) (s : Server) (cid : ConnectionId)
    (peer : Peer) (l : Lobby) (i : ℕ) (endpoint : Str)
    → Map.find p.conn s.cid_map ≡ some cid
    → find_peer p.conn s ≡ some peer
    → find_lobby peer.lobby_key s ≡ some l
    → playing_side p.conn l ≡ some i
    → own_side 2 0 c.name (to_lobby_data l).members ≡ some i
    → (libs.send_result c.sends).message_number ≡ pos p.message_number
    → int_eqb (side i l.match_data.ready_message_num) (pos p.message_number) ≡ false
    → let d = ready_client libs c in
      ((handle_data_update (to_lobby_data l) l.match_data d).outstanding_ready
        ≡ pos p.message_number)
      × ((l' : Lobby) × (find_lobby peer.lobby_key (to_server env p d s) ≡ some l')
          × (l'.dirty ≡ true)
          × ((handle_data_update
                (to_lobby_data l')
                (record (l'.match_data) { relay_endpoint = endpoint })
                d).outstanding_ready
              ≡ minus_one))
unfolding lobby_ready_request send find_lobby to_lobby_data ready_lobby put_lobby Map.find
    find_by_key Map.insert
ready_acknowledged env libs p c s cid peer l i endpoint known registered there plays seat sent
      older =
    let d = ready_client libs c in
    let l' = ready_lobby i p.message_number l in
    let m : MatchData = record (l'.match_data) { relay_endpoint = endpoint } in
    (
      acknowledges (to_lobby_data l) l.match_data d i p.message_number sent seat ∙ rw older refl,
      (
        l',
        ap (find_lobby peer.lobby_key)
              (ready_reaches env libs p c s cid peer l i known registered there plays)
            ∙ Map.find-insert_self peer.lobby_key l' s.registry.lobbies,
        refl,
        acknowledges (to_lobby_data l') m d i p.message_number sent seat
            ∙ rw
                ((int_eqb_iff _ _).1
                  (side-set_side i (pos p.message_number) l.match_data.ready_message_num))
                refl,
      ),
    )
