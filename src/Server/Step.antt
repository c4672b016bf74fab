-- ===== src/Server/Step.antt =====
-- SessionServer::Step of src/session/sf4e__SessionServer.cxx: one poll.
use sf4_rollback_gui.Prelude.{
  ℕ, Bool, true, false, List, [], ◌∷◌, Option, none, some, if◌then◌else◌,
}
use sf4_rollback_gui.Prelude.Map
use sf4_rollback_gui.Prelude.Map.{nat_key}
use sf4_rollback_gui.Protocol.{
  ConnectionId, Request, hello, lobby_list, lobby_leave, presence_list, battle_loaded, battle_ended,
  battle_snapshot, other, join_req, lobby_create, challenge_send, challenge_answer, matchmake,
  chat_send, forward, prebattle_setchara, prebattle_setenv, prebattle_setstage, lobby_ready,
  lobby_reportresults, Body, non_json, untyped, typed, Packet,
}
use sf4_rollback_gui.Server.State.{Server, Peer, find_peer, has_ended}
use sf4_rollback_gui.Server.Join.{greet, handle_join}
use sf4_rollback_gui.Server.Lobbies.{
  handle_lobby_create, handle_lobby_list, handle_lobby_leave, handle_presence_list,
}
use sf4_rollback_gui.Server.Challenge.{
  handle_challenge_send, handle_challenge_answer, handle_matchmake,
}
use sf4_rollback_gui.Server.Matchmaking.{Sort, step_matchmaking}
use sf4_rollback_gui.Server.Chat.{Json, handle_chat_send, handle_forward, handle_battle_snapshot}
use sf4_rollback_gui.Server.Battle.{
  handle_setchara, handle_setenv, handle_setstage, handle_battle_loaded, handle_lobby_ready,
  handle_battle_ended, handle_reportresults,
}
use sf4_rollback_gui.Server.Relay.{Datagram, step_relay, step_probe}
use sf4_rollback_gui.Server.Flush.{flush}

-- What the libraries provide: the draws of the two generators, the sort, the JSON, and whether the vector
-- of a lobby's members is reallocated when a report of results copies the loser to its end.
pub record Env : Type 0 where
  pub token_gen : ℕ → ℕ
  pub seed_gen : ℕ → ℕ
  pub sort : Sort
  pub json : Json
  pub reallocates : Packet → Bool

-- A message from a registered peer.
unfoldable pub handle_registered : Env → Packet → Request → Peer → Server → Server
handle_registered env p lobby_list peer s = handle_lobby_list p s
handle_registered env p lobby_leave peer s = handle_lobby_leave p peer s
handle_registered env p presence_list peer s = handle_presence_list p s
handle_registered env p battle_loaded peer s = handle_battle_loaded p peer s
handle_registered env p battle_ended peer s = handle_battle_ended env.seed_gen p peer s
handle_registered env p battle_snapshot peer s = handle_battle_snapshot p peer s
handle_registered env p (lobby_create r) peer s = handle_lobby_create p r peer s
handle_registered env p (challenge_send r) peer s = handle_challenge_send p r peer s
handle_registered env p (challenge_answer r) peer s = handle_challenge_answer p r peer s
handle_registered env p (matchmake r) peer s = handle_matchmake p r peer s
handle_registered env p (chat_send r) peer s = handle_chat_send env.json p r peer s
handle_registered env p (forward r) peer s = handle_forward env.json p r peer s
handle_registered env p (prebattle_setchara r) peer s = handle_setchara p r peer s
handle_registered env p (prebattle_setenv r) peer s = handle_setenv p r peer s
handle_registered env p (prebattle_setstage r) peer s = handle_setstage p r peer s
handle_registered env p (lobby_ready r) peer s = handle_lobby_ready p r peer s
handle_registered env p (lobby_reportresults r) peer s =
    handle_reportresults env.reallocates p r peer s
handle_registered env p hello peer s = s
handle_registered env p other peer s = s
handle_registered env p (join_req r) peer s = s

-- A join request is handled whether or not the connection has registered.
unfoldable pub dispatch : Env → ConnectionId → Packet → Request → Server → Server
dispatch env cid p (join_req r) s = handle_join cid p r s
dispatch env cid p r s = elim (find_peer p.conn s) [
  | none ↦ s
  | some peer ↦ handle_registered env p r peer s
]

-- Before its hello a connection can do nothing else.
unfoldable pub handle_unknown : Packet → Request → Server → Server
handle_unknown p hello s = greet p s
handle_unknown p _ s = s

unfoldable pub handle_body : Env → Packet → Body → Server → Server
handle_body env p non_json s = s
handle_body env p untyped s = s
handle_body env p (typed r) s = elim (Map.find p.conn s.cid_map) [
  | none ↦ handle_unknown p r s
  | some cid ↦ dispatch env cid p r s
]

unfoldable pub handle_packet : Env → Packet → Server → Server
handle_packet env p s = handle_body env p p.body s

-- The loop over the messages; `none` is a message that was announced and not delivered, which ends the
-- step with an error. So does the end of the process.
unfoldable pub handle_packets : Env → List (Option Packet) → Server → Bool × Server
handle_packets env [] s = (true, s)
handle_packets env (none ∷ ps) s = (false, s)
handle_packets env (some p ∷ ps) s =
    let s' = handle_packet env p s in
    let rest = handle_packets env ps s' in if has_ended s' then (false, s') else rest

-- What the sockets deliver to one step, and the clock after the messages. `messages` is `none` where
-- ReceiveMessagesOnPollGroup fails.
pub record Input : Type 0 where
  pub probes1 : List Datagram
  pub probes2 : List Datagram
  pub relayed : List Datagram
  pub messages : Option (List (Option Packet))
  pub now_ms : ℕ

unfoldable pub step_sockets : Input → Server → Server
step_sockets i s =
    step_relay i.now_ms i.relayed
      (step_probe 1 s.probe_bound.p2 i.probes2 (step_probe 0 s.probe_bound.p1 i.probes1 s))

unfoldable pub finish : Env → ℕ → Server → Server
finish env now s = flush env.token_gen now (step_matchmaking env.sort now s)

-- `false` is the result -1.
unfoldable pub step : Env → Input → Server → Bool × Server
step env i s = elim i.messages [
  | none ↦ (false, step_sockets i s)
  | some ps ↦
      let (is_done, s') = handle_packets env ps (step_sockets i s) in
      if is_done then (true, finish env i.now_ms s') else (false, s')
]
