-- ===== src/Server/Chat/Delivery.antt =====
-- What one chat message does (src/session/sf4e__SessionServer.cxx, MT_CHAT_SEND).
use sf4_rollback_gui.Prelude.{
  ℕ, ◌≡◌, refl, Bool, true, false, ◌∷◌, not, ◌&&◌, List, [], ◌++◌, Option, none, some, Option-cases,
  Bool-cases, inl, inr, Str, lit, is_empty, str_eqb, arith, if◌then◌else◌,
}
use sf4_rollback_gui.Protocol.{ChatSend, Message, chat_event, Packet}
use sf4_rollback_gui.Registry.{Lobby}
use sf4_rollback_gui.Server.State.{
  Server, Peer, put_peer, find_lobby, broadcast_to_peers, net_call, uncaught_exception,
}
use sf4_rollback_gui.Server.State.Sends.{
  sends, member_conns, peer_conns, broadcast_to_members-eq, broadcast_to_entries-eq,
}
use sf4_rollback_gui.Server.Chat.{
  Json, dump_first, is_rate_limited, stamp_chat, strip_loop, deliver_chat, handle_chat_send,
}

-- The members of a lobby that may not be there.
abbrev lobby_conns : Option Lobby → List ℕ
lobby_conns none = []
lobby_conns (some l) = member_conns l.members

abbrev pub is_some : Option Lobby → Bool
is_some none = false
is_some (some l) = true

-- Who hears a message: every peer in the lounge channel, the members of the sender's lobby in that
-- lobby's channel, nobody in any other.
abbrev pub audience : Str → Peer → Server → List ℕ
audience channel peer s =
    if str_eqb channel (lit "lounge")
    then peer_conns s.peers
    else if not (is_empty peer.lobby_key) && str_eqb channel peer.lobby_key
    then lobby_conns (find_lobby peer.lobby_key s)
    else []

abbrev pub chat_message : Packet → ChatSend → Peer → Message
chat_message p r peer = chat_event (record {
  channel = r.channel;
  from_name = peer.data_of.name;
  text = strip_loop [] r.text;
  ts = p.wall;
})

-- Whether the channel is one that the sender may speak in.
abbrev pub has_audience : Str → Peer → Server → Bool
has_audience channel peer s =
    if str_eqb channel (lit "lounge")
    then true
    else if not (is_empty peer.lobby_key) && str_eqb channel peer.lobby_key
    then is_some (find_lobby peer.lobby_key s)
    else false

-- The message goes to its audience, or the exception of its print ends the process.
abbrev pub spoken : Json → Packet → ChatSend → Peer → Server → Server
spoken json p r peer s =
    if has_audience r.channel peer s
    then (if json.can_dump (chat_message p r peer)
        then record s { net = s.net ++ sends (audience r.channel peer s) (chat_message p r peer) }
        else record s { net = s.net ++ uncaught_exception ∷ [] })
    else s

deliver_chat-eq :
    (json : Json) (p : Packet) (r : ChatSend) (peer : Peer) (s : Server)
    → deliver_chat json p r peer (strip_loop [] r.text) s ≡ spoken json p r peer s
unfolding deliver_chat broadcast_to_peers dump_first net_call
deliver_chat-eq json p r peer s =
    let m = chat_message p r peer in
    elim (Bool-cases (str_eqb r.channel (lit "lounge"))) [
      | inl everyone ↦ rw (everyone, broadcast_to_entries-eq s.peers m s) refl
      | inr e ↦
          elim (Bool-cases (not (is_empty peer.lobby_key) && str_eqb r.channel peer.lobby_key)) [
            | inl own ↦ elim (Option-cases (find_lobby peer.lobby_key s)) [
              | inl f ↦ rw (e, own, deliver_chat, f) refl
              | inr (l, f) ↦
                  rw (e, own, deliver_chat, f, broadcast_to_members-eq l.members m s) refl
            ]
            | inr other ↦ rw (e, other) refl
          ]
    ]

-- A message over the rate limit changes nothing. Otherwise the sender is stamped. A message with some
-- text left, in the lounge channel or in the sender's own lobby's, then goes once to each of its
-- audience, under the sender's registered name, if its JSON can be printed; if not, nobody gets it and
-- the exception ends the process. Any other message goes nowhere.
pub handle_chat_send_lem :
    (json : Json) (p : Packet) (r : ChatSend) (peer : Peer) (s : Server)
    → handle_chat_send json p (some r) peer s ≡ (
        if is_rate_limited p.now_ms peer
        then s
        else let s' = put_peer p.conn (stamp_chat p.now_ms peer) s in
          if is_empty (strip_loop [] r.text) then s' else spoken json p r peer s')
unfolding handle_chat_send put_peer stamp_chat
handle_chat_send_lem json p r peer s = ground (
  arith,
  deliver_chat-eq json p r (stamp_chat p.now_ms peer)
      (put_peer p.conn (stamp_chat p.now_ms peer) s),
)
