-- ===== src/Server/Chat.antt =====
-- MT_CHAT_SEND, MT_FORWARD and MT_BATTLE_SNAPSHOT in SessionServer::Step of
-- src/session/sf4e__SessionServer.cxx: what a client says to others.
pub mod Text
pub mod Rate
pub mod Delivery
pub mod Forward
use sf4_rollback_gui.Prelude.{
  ℕ, ◌+◌, ◌%◌, Bool, true, false, not, ◌&&◌, ◌||◌, List, [], ◌∷◌, ◌++◌, Option, none, some, Str,
  lit, is_empty, get_elem?, set, length, ltb, leb, ◌==◌, if◌then◌else◌, sub64, str_eqb, to_string,
}
use sf4_rollback_gui.Protocol.{
  connection_id_eqb, ConnectionId, ChatSend, ChatEvent, ForwardMessage, Packet, Message, chat_event,
  forwarded, snapshot,
}
use sf4_rollback_gui.Registry.{LobbyMember}
use sf4_rollback_gui.Server.State.{
  Server, Peer, respond, broadcast_to_members, broadcast_to_peers, put_peer, find_lobby, net_call,
  uncaught_exception,
}

abbrev pub chat_rate_burst : ℕ
chat_rate_burst = 5

abbrev pub chat_rate_window_ms : ℕ
chat_rate_window_ms = 2000

abbrev pub chat_text_max : ℕ
chat_text_max = 256

abbrev pub or_zero : Option ℕ → ℕ
or_zero none = 0
or_zero (some n) = n

-- peer.chatStamps[peer.chatStampIdx]; the index stays below 5.
unfoldable pub oldest_stamp : Peer → ℕ
oldest_stamp p = or_zero (get_elem? p.chat_stamps p.chat_stamp_idx)

unfoldable pub is_rate_limited : ℕ → Peer → Bool
is_rate_limited now p =
    not (oldest_stamp p == 0) && ltb (sub64 now (oldest_stamp p)) chat_rate_window_ms

unfoldable pub stamp_chat : ℕ → Peer → Peer
stamp_chat now p = record p {
  chat_stamps = set p.chat_stamps p.chat_stamp_idx now;
  chat_stamp_idx = (p.chat_stamp_idx + 1) % chat_rate_burst;
}

-- The loop that strips control characters, with the text so far.
unfoldable pub strip_loop : Str → Str → Str
strip_loop text [] = text
strip_loop text (c ∷ cs) =
    let more = strip_loop (if leb 0x20 c then text ++ c ∷ [] else text) cs in
    if ltb (length text) chat_text_max then more else text

-- What nlohmann::json does: whether `dump` prints the JSON of a message, which it refuses by an exception
-- when a text in it is not UTF-8, and what it prints for a text that it has parsed itself.
pub record Json : Type 0 where
  pub can_dump : Message → Bool
  pub reprint : Str → Str

-- A broadcast prints its message first. Nobody catches the exception.
unfoldable pub dump_first : Json → Message → Server → Server → Server
dump_first json m sent s = if json.can_dump m then sent else net_call uncaught_exception s

unfoldable pub deliver_chat : Json → Packet → ChatSend → Peer → Str → Server → Server
deliver_chat json p r peer text s =
    let m : Message =
      chat_event
        (record { channel = r.channel; from_name = peer.data_of.name; text = text; ts = p.wall }) in
    if str_eqb r.channel (lit "lounge")
    then dump_first json m (broadcast_to_peers m s) s
    else if not (is_empty peer.lobby_key) && str_eqb r.channel peer.lobby_key
    then elim (find_lobby peer.lobby_key s) [
      | none ↦ s
      | some l ↦ dump_first json m (broadcast_to_members l.members m s) s
    ]
    else s

unfoldable pub handle_chat_send : Json → Packet → Option ChatSend → Peer → Server → Server
handle_chat_send json p none peer s = s
handle_chat_send json p (some r) peer s =
    if is_rate_limited p.now_ms peer
    then s
    else let stamped = stamp_chat p.now_ms peer in
      let text = strip_loop [] r.text in
      let s' = put_peer p.conn stamped s in
      if is_empty text then s' else deliver_chat json p r stamped text s'

unfoldable pub find_conn_id : ConnectionId → List LobbyMember → Option LobbyMember
find_conn_id cid [] = none
find_conn_id cid (m ∷ ms) =
    if connection_id_eqb m.data_of.conn_id cid then some m else find_conn_id cid ms

-- A source address of this server that is not the sender's own.
unfoldable pub is_fraudulent : Packet → ForwardMessage → Server → Bool
is_fraudulent p m s = str_eqb m.src.host s.identity && not (str_eqb m.src.user (to_string p.conn))

unfoldable pub handle_forward : Json → Packet → Option ForwardMessage → Peer → Server → Server
handle_forward json p none peer s = s
handle_forward json p (some m) peer s =
    if is_fraudulent p m s
    then s
    else if not (str_eqb m.dest.host s.identity)
    then s
    else elim (find_lobby peer.lobby_key s) [
      | none ↦ s
      | some l ↦ elim (find_conn_id m.dest l.members) [
        | none ↦ s
        | some dest ↦ respond dest.conn (forwarded (json.reprint p.raw)) s
      ]
    ]

unfoldable pub send_to_others : ℕ → Message → List LobbyMember → Server → Server
send_to_others conn m [] s = s
send_to_others conn m (x ∷ xs) s =
    send_to_others conn m xs (if x.conn == conn then s else respond x.conn m s)

unfoldable pub handle_battle_snapshot : Packet → Peer → Server → Server
handle_battle_snapshot p peer s = elim (find_lobby peer.lobby_key s) [
  | none ↦ s
  | some l ↦ send_to_others p.conn (snapshot p.raw) l.members s
]
