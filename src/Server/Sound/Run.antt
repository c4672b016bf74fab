-- ===== src/Server/Sound/Run.antt =====
-- The life of a server (src/session/sf4e__SessionServer.cxx): polls and connection callbacks in any
-- order, from a constructor on.
use sf4_rollback_gui.Prelude.{
  ℕ, ◌≡◌, refl, ◌∙◌, inl, inr, Bool, true, false, List, [], ◌∷◌, Option, none, some, Option-cases,
  Bool-cases, ℤ, Str, arith,
}
use sf4_rollback_gui.Prelude.Map
use sf4_rollback_gui.Prelude.Map.{nat_key}
use sf4_rollback_gui.Protocol.{
  FixedPoint, ConnectionId, Request, hello, lobby_leave, battle_loaded, battle_ended,
  battle_snapshot, join_req, lobby_create, challenge_send, challenge_answer, matchmake, chat_send,
  forward, prebattle_setchara, prebattle_setenv, prebattle_setstage, lobby_ready,
  lobby_reportresults, Body, non_json, untyped, typed, Packet,
}
use sf4_rollback_gui.Registry.{Lobby, empty_registry}
use sf4_rollback_gui.Registry.Create.{KeyBelow}
use sf4_rollback_gui.Server.State.{
  has_ended, Server, Peer, net_call, respond, put_peer, init, init_with_default, find_peer,
  find_lobby,
}
use sf4_rollback_gui.Server.Lobbies.{handle_lobby_list, handle_presence_list}
use sf4_rollback_gui.Server.Challenge.{handle_matchmake}
use sf4_rollback_gui.Server.Connection.{
  StatusChange, closed, connecting, other_state, on_status_changed, drop_connection, forget,
  add_connection,
}
use sf4_rollback_gui.Server.Step.{
  Env, Input, handle_registered, dispatch, handle_unknown, handle_body, handle_packet,
  handle_packets, step_sockets, finish, step,
}
use sf4_rollback_gui.Server.Life.{Event, polls, changes, adds, apply, run}
use sf4_rollback_gui.Server.Sound.{
  IsSound, LobbyOk, IsSound-eq, find-LobbyOk, create_persistent-IsSound,
}
use sf4_rollback_gui.Server.Sound.Leaving.{remove_from_lobby-IsSound}
use sf4_rollback_gui.Server.Sound.Frame.{
  registry-greet, registry-handle_challenge_send, registry-handle_chat_send,
  registry-handle_forward, registry-handle_battle_snapshot, registry-tell_challengers,
  registry-step_relay, registry-step_probe,
}
use sf4_rollback_gui.Server.Sound.Joins.{handle_join-IsSound}
use sf4_rollback_gui.Server.Sound.Handlers.{
  handle_lobby_create-IsSound, handle_lobby_leave-IsSound, handle_challenge_answer-IsSound,
  step_matchmaking-IsSound,
}
use sf4_rollback_gui.Server.Sound.Battles.{
  handle_setchara-IsSound, handle_setenv-IsSound, handle_setstage-IsSound,
  handle_battle_loaded-IsSound, handle_lobby_ready-IsSound, handle_reportresults-IsSound,
  handle_battle_ended-IsSound,
}
use sf4_rollback_gui.Server.Sound.Flushing.{flush-IsSound}

handle_registered-IsSound :
    (env : Env) (p : Packet) (r : Request) (peer : Peer) (s : Server)
    → IsSound s.registry
    → IsSound (handle_registered env p r peer s).registry
unfolding handle_registered handle_lobby_list handle_presence_list handle_matchmake put_peer respond
handle_registered-IsSound env p lobby_leave peer s v = handle_lobby_leave-IsSound p peer s v
handle_registered-IsSound env p battle_loaded peer s v = handle_battle_loaded-IsSound p peer s v
handle_registered-IsSound env p battle_ended peer s v =
    handle_battle_ended-IsSound p peer s v env.seed_gen
handle_registered-IsSound env p battle_snapshot peer s v =
    IsSound-eq (registry-handle_battle_snapshot p peer s) v
handle_registered-IsSound env p (lobby_create r) peer s v = handle_lobby_create-IsSound p r peer s v
handle_registered-IsSound env p (challenge_send r) peer s v =
    IsSound-eq (registry-handle_challenge_send p r peer s) v
handle_registered-IsSound env p (challenge_answer r) peer s v =
    handle_challenge_answer-IsSound p r peer s v
handle_registered-IsSound env p (matchmake none) peer s v = v
handle_registered-IsSound env p (matchmake (some b)) peer s v = v
handle_registered-IsSound env p (chat_send r) peer s v =
    IsSound-eq (registry-handle_chat_send env.json p r peer s) v
handle_registered-IsSound env p (forward r) peer s v =
    IsSound-eq (registry-handle_forward env.json p r peer s) v
handle_registered-IsSound env p (prebattle_setchara r) peer s v =
    handle_setchara-IsSound p peer s v r
handle_registered-IsSound env p (prebattle_setenv r) peer s v = handle_setenv-IsSound p peer s v r
handle_registered-IsSound env p (prebattle_setstage r) peer s v =
    handle_setstage-IsSound p peer s v r
handle_registered-IsSound env p (lobby_ready r) peer s v = handle_lobby_ready-IsSound p peer s v r
handle_registered-IsSound env p (lobby_reportresults r) peer s v =
    handle_reportresults-IsSound p peer s v env.reallocates r
handle_registered-IsSound env p _ peer s v = v

dispatch-IsSound :
    (env : Env) (cid : ConnectionId) (p : Packet) (r : Request) (s : Server)
    → IsSound s.registry
    → IsSound (dispatch env cid p r s).registry
unfolding dispatch
dispatch-IsSound env cid p (join_req r) s v = handle_join-IsSound cid p r s v
dispatch-IsSound env cid p r s v = elim (Option-cases (find_peer p.conn s)) [
  | inl e ↦ rw (dispatch, e) v
  | inr (peer, e) ↦ rw (dispatch, e) (handle_registered-IsSound env p r peer s v)
]

handle_unknown-IsSound :
    (p : Packet) (r : Request) (s : Server)
    → IsSound s.registry
    → IsSound (handle_unknown p r s).registry
unfolding handle_unknown
handle_unknown-IsSound p hello s v = IsSound-eq (registry-greet p s) v
handle_unknown-IsSound p _ s v = v

handle_body-IsSound :
    (env : Env) (p : Packet) (b : Body) (s : Server)
    → IsSound s.registry
    → IsSound (handle_body env p b s).registry
unfolding handle_body
handle_body-IsSound env p non_json s v = v
handle_body-IsSound env p untyped s v = v
handle_body-IsSound env p (typed r) s v = elim (Option-cases (Map.find p.conn s.cid_map)) [
  | inl e ↦ rw (handle_body, e) (handle_unknown-IsSound p r s v)
  | inr (cid, e) ↦ rw (handle_body, e) (dispatch-IsSound env cid p r s v)
]

handle_packets-IsSound :
    (env : Env) (ps : List (Option Packet)) (s : Server)
    → IsSound s.registry
    → IsSound (handle_packets env ps s).1.registry
unfolding handle_packets handle_packet
handle_packets-IsSound env [] s v = v
handle_packets-IsSound env (none ∷ ps) s v = v
handle_packets-IsSound env (some p ∷ ps) s v =
    let v' = handle_body-IsSound env p p.body s v in
    elim (Bool-cases (has_ended (handle_body env p p.body s))) [
      | inl ended ↦ rw ended v'
      | inr going ↦ rw going (handle_packets-IsSound env ps _ v')
    ]

registry-step_sockets : (i : Input) (s : Server) → (step_sockets i s).registry ≡ s.registry
unfolding step_sockets
registry-step_sockets i s =
    registry-step_relay i.now_ms i.relayed _
    ∙ (registry-step_probe 1 s.probe_bound.p2 i.probes2 _
        ∙ registry-step_probe 0 s.probe_bound.p1 i.probes1 s)

finish-IsSound :
    (env : Env) (now : ℕ) (s : Server) → IsSound s.registry → IsSound (finish env now s).registry
unfolding finish
finish-IsSound env now s v =
    flush-IsSound env.token_gen now _ (step_matchmaking-IsSound env.sort now s v)

pub step-IsSound :
    (env : Env) (i : Input) (s : Server) → IsSound s.registry → IsSound (step env i s).1.registry
unfolding step
step-IsSound env i s v = elim (Option-cases i.messages) [
  | inl e ↦ rw (step, e) (IsSound-eq (registry-step_sockets i s) v)
  | inr (ps, e) ↦ elim (Bool-cases (handle_packets env ps (step_sockets i s)).0) [
    | inl done ↦ rw (step, e, done) (finish-IsSound env i.now_ms _ (received ps))
    | inr failed ↦ rw (step, e, failed) (received ps)
  ]
]
  where
    received :
        (ps : List (Option Packet)) → IsSound (handle_packets env ps (step_sockets i s)).1.registry
    received ps = handle_packets-IsSound env ps _ (IsSound-eq (registry-step_sockets i s) v)

pub on_status_changed-IsSound :
    (c : StatusChange) (conn now : ℕ) (s : Server)
    → IsSound s.registry
    → IsSound (on_status_changed c conn now s).registry
unfolding on_status_changed drop_connection forget net_call
on_status_changed-IsSound (closed true) conn now s v =
    remove_from_lobby-IsSound _ conn (IsSound-eq (registry-tell_challengers conn now s) v)
on_status_changed-IsSound (closed false) conn now s v = v
on_status_changed-IsSound (connecting b) conn now s v = ground arith
on_status_changed-IsSound other_state conn now s v = v

apply-IsSound :
    (env : Env) (e : Event) (s : Server) → IsSound s.registry → IsSound (apply env e s).registry
unfolding apply add_connection net_call
apply-IsSound env (polls i) s v = step-IsSound env i s v
apply-IsSound env (changes c conn now) s v = on_status_changed-IsSound c conn now s v
apply-IsSound env (adds conn) s v = v

pub run-IsSound :
    (env : Env) (es : List Event) (s : Server)
    → IsSound s.registry
    → IsSound (run env es s).registry
unfolding run
run-IsSound env [] s v = v
run-IsSound env (e ∷ es) s v = elim (Bool-cases (has_ended s)) [
  | inl ended ↦ rw ended v
  | inr going ↦ rw going (run-IsSound env es (apply env e s) (apply-IsSound env e s v))
]

pub empty-IsSound : (host : Str) → IsSound (empty_registry host)
unfolding empty_registry
empty-IsSound host = record { lobbies_ok = tt; keys_below = tt }

-- After any sequence of polls and connection callbacks, whatever messages they bring, every lobby of
-- a server that began sound stands under the key in its own id, which is the text of a number below
-- the next key, holds no more members than its capacity, and has a member unless it is persistent.
pub run_lobbies :
    (env : Env) (es : List Event) (s : Server) (key : Str) (l : Lobby)
    → IsSound s.registry
    → find_lobby key (run env es s) ≡ some l
    → LobbyOk (key, l) × KeyBelow (run env es s).registry.next_key (key, l)
run_lobbies env es s key l v e = find-LobbyOk (run env es s) key l e (run-IsSound env es s v)

-- Both constructors make a sound server: the dedicated one, and the one with a default lobby.
pub init-IsSound :
    (identity hash version : Str) (edition : Bool) (rounds : ℤ) (time : FixedPoint)
    → IsSound (init identity hash version).registry
      × IsSound (init_with_default identity hash version edition rounds time).registry
unfolding init init_with_default
init-IsSound identity hash version edition rounds time = (
  empty-IsSound identity,
  create_persistent-IsSound (init identity hash version) _ refl (empty-IsSound identity),
)
