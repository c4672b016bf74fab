-- ===== src/Server/Challenge.antt =====
-- MT_CHALLENGE_SEND, MT_CHALLENGE_ANSWER and MT_MATCHMAKE in SessionServer::Step of
-- src/session/sf4e__SessionServer.cxx.
use sf4_rollback_gui.Prelude.{
  ℕ, Bool, true, false, not, ◌&&◌, ◌||◌, [], ◌∷◌, ◌++◌, Option, none, some, Str, lit, is_empty,
  if◌then◌else◌, str_eqb,
}
use sf4_rollback_gui.Prelude.Map.{Map}
use sf4_rollback_gui.Protocol.{
  ChallengeAnswer, Packet, accepted, declined, busy, offline, challenge_event,
}
use sf4_rollback_gui.Server.State.{
  Server, Peer, respond, respond_challenge_result, peer_at, put_peer,
}
use sf4_rollback_gui.Server.Seats.{create_pair_lobby}

-- The last lounge connection of the name, going through `peers` from `best` on.
unfoldable pub lounge_conn : Str → Option ℕ → Map ℕ Peer → Option ℕ
lounge_conn name best [] = best
lounge_conn name best ((conn, p) ∷ rest) =
    lounge_conn name
      (if str_eqb p.data_of.name name && is_empty p.lobby_key then some conn else best) rest

unfoldable pub is_seated_name : Str → Map ℕ Peer → Bool
is_seated_name name [] = false
is_seated_name name ((conn, p) ∷ rest) =
    (str_eqb p.data_of.name name && not (is_empty p.lobby_key)) || is_seated_name name rest

unfoldable pub may_challenge : Peer → Str → Bool
may_challenge sender target =
    is_empty sender.lobby_key
    && not (str_eqb target sender.data_of.name)
    && not (is_empty target)
    && is_empty sender.challenge_target

unfoldable pub handle_challenge_send : Packet → Option Str → Peer → Server → Server
handle_challenge_send p none sender s = s
handle_challenge_send p (some target) sender s =
    if not (may_challenge sender target)
    then s
    else if is_seated_name target s.peers
    then respond_challenge_result p.conn target busy s
    else elim (lounge_conn target none s.peers) [
      | none ↦ respond_challenge_result p.conn target offline s
      | some conn ↦ respond conn (challenge_event sender.data_of.name) (
          put_peer p.conn
            (record sender { challenge_target = target; challenge_sent_at_ms = p.now_ms }) s)
    ]

-- The first peer of the name whose challenge targets the answerer.
unfoldable pub challenger_conn : Str → Str → Map ℕ Peer → Option ℕ
challenger_conn name answerer [] = none
challenger_conn name answerer ((conn, p) ∷ rest) =
    if str_eqb p.data_of.name name && str_eqb p.challenge_target answerer
    then some conn
    else challenger_conn name answerer rest

abbrev pub without_challenge : Peer → Peer
without_challenge p = record p { challenge_target = []; challenge_sent_at_ms = 0 }

-- The answer to the challenge of `conn`, which is already withdrawn in `s`.
unfoldable pub settle : Packet → ChallengeAnswer → ℕ → Peer → Peer → Server → Server
settle p a conn challenger answerer s =
    let answerer_name = answerer.data_of.name in
    if not a.accept
    then respond_challenge_result conn answerer_name declined s
    else if not (is_empty challenger.lobby_key) || not (is_empty answerer.lobby_key)
    then respond_challenge_result p.conn a.from_name busy
        (respond_challenge_result conn answerer_name busy s)
    else respond_challenge_result conn answerer_name accepted
        (create_pair_lobby (challenger.data_of.name ++ (lit " vs " ++ answerer_name)) conn p.conn
          s).1

unfoldable pub handle_challenge_answer : Packet → Option ChallengeAnswer → Peer → Server → Server
handle_challenge_answer p none answerer s = s
handle_challenge_answer p (some a) answerer s =
    elim (challenger_conn a.from_name answerer.data_of.name s.peers) [
      | none ↦ s
      | some conn ↦
          let challenger = without_challenge (peer_at conn s) in
          settle p a conn challenger answerer (put_peer conn challenger s)
    ]

unfoldable pub queued_peer : Bool → ℕ → Peer → Peer
queued_peer enabled now p =
    if enabled && is_empty p.lobby_key
    then (if p.looking_for_match
        then p
        else record p { looking_for_match = true; looking_since_ms = now })
    else record p { looking_for_match = false; looking_since_ms = 0 }

unfoldable pub handle_matchmake : Packet → Option Bool → Peer → Server → Server
handle_matchmake p none peer s = s
handle_matchmake p (some enabled) peer s = put_peer p.conn (queued_peer enabled p.now_ms peer) s
