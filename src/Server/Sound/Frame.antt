-- ===== src/Server/Sound/Frame.antt =====
-- The functions of src/session/sf4e__SessionServer.cxx that leave the lobbies alone.
use sf4_rollback_gui.Prelude.{
  ℕ, zero, suc, ◌≡◌, refl, ◌∙◌, Bool, List, [], ◌∷◌, Option, none, some, Option-cases, inl, inr,
  Str, arith,
}
use sf4_rollback_gui.Prelude.Map.{Map}
use sf4_rollback_gui.Protocol.{LobbyId, ChatSend, ForwardMessage, Packet, Message}
use sf4_rollback_gui.Registry.{Lobby, LobbyMember, PendingHandoff}
use sf4_rollback_gui.Server.State.{
  Server, Peer, MatchForensic, net_call, respond, respond_null_lobby_update,
  respond_challenge_result, broadcast_to_members, broadcast_to_entries, broadcast_to_peers,
  put_peer,
}
use sf4_rollback_gui.Server.Forensics.{
  close_forensic, note_seat_death, check_fallback, needs_relay_fallback,
}
use sf4_rollback_gui.Server.Join.{greet, release_old, open_forensic}
use sf4_rollback_gui.Server.Challenge.{handle_challenge_send}
use sf4_rollback_gui.Server.Matchmaking.{expire_challenges}
use sf4_rollback_gui.Server.Chat.{
  Json, dump_first, deliver_chat, handle_chat_send, handle_forward, send_to_others,
  handle_battle_snapshot,
}
use sf4_rollback_gui.Server.Battle.{saw_ended}
use sf4_rollback_gui.Server.Relay.{
  Datagram, register_seat, handle_registration, forward_datagram, relay_datagram, relay_loop,
  step_relay, answer_probe, probe_loop, step_probe,
}
use sf4_rollback_gui.Server.Flush.{needs_relay, relay_endpoint, send_handoffs, send_all_ready_to}
use sf4_rollback_gui.Server.Connection.{void_challenges, tell_challengers}

pub registry-broadcast_to_members :
    (ms : List LobbyMember) (m : Message) (s : Server)
    → (broadcast_to_members ms m s).registry ≡ s.registry
unfolding broadcast_to_members respond
registry-broadcast_to_members [] m s = refl
registry-broadcast_to_members (x ∷ xs) m s = registry-broadcast_to_members xs m _

registry-broadcast_to_entries :
    (es : Map ℕ Peer) (m : Message) (s : Server)
    → (broadcast_to_entries es m s).registry ≡ s.registry
unfolding broadcast_to_entries respond
registry-broadcast_to_entries [] m s = refl
registry-broadcast_to_entries ((conn, p) ∷ es) m s = registry-broadcast_to_entries es m _

registry-close_forensic :
    (key : Str) (now : ℕ) (f : MatchForensic) (s : Server)
    → (close_forensic key now f s).registry ≡ s.registry
unfolding close_forensic
registry-close_forensic key now f s = ground arith

pub registry-note_seat_death :
    (conn : ℕ) (key : Str) (now : ℕ) (s : Server)
    → (note_seat_death conn key now s).registry ≡ s.registry
unfolding note_seat_death close_forensic
registry-note_seat_death conn key now s = ground arith

pub registry-needs_relay_fallback :
    (ms : List LobbyMember) (now : ℕ) (s : Server)
    → (needs_relay_fallback ms now s).1.registry ≡ s.registry
unfolding needs_relay_fallback check_fallback
registry-needs_relay_fallback [] now s = refl
registry-needs_relay_fallback (a ∷ []) now s = refl
registry-needs_relay_fallback (a ∷ b ∷ rest) now s = ground arith

pub registry-relay_endpoint :
    (l : Lobby) (now : ℕ) (s : Server) → (relay_endpoint l now s).1.registry ≡ s.registry
unfolding relay_endpoint
registry-relay_endpoint l now s = ground (arith, go l.members)
  where
    go : (ms : List LobbyMember) → (needs_relay ms now s).1.registry ≡ s.registry
    go [] = unfold needs_relay in refl
    go (a ∷ []) = unfold needs_relay in refl
    go (a ∷ b ∷ rest) =
        unfold needs_relay in ground (arith, registry-needs_relay_fallback (a ∷ b ∷ rest) now s)

pub registry-release_old :
    (old conn : ℕ) (s : Server) → (release_old old conn s).registry ≡ s.registry
unfolding release_old put_peer respond_null_lobby_update
registry-release_old old conn s = ground arith

pub registry-open_forensic :
    (now : ℕ) (l : Lobby) (s : Server) → (open_forensic now l s).registry ≡ s.registry
unfolding open_forensic
registry-open_forensic now l s = ground arith

pub registry-greet : (p : Packet) (s : Server) → (greet p s).registry ≡ s.registry
unfolding greet respond
registry-greet p s = refl

pub registry-handle_challenge_send :
    (p : Packet) (r : Option Str) (peer : Peer) (s : Server)
    → (handle_challenge_send p r peer s).registry ≡ s.registry
unfolding handle_challenge_send respond respond_challenge_result put_peer
registry-handle_challenge_send p none peer s = refl
registry-handle_challenge_send p (some r) peer s = ground arith

pub registry-expire_challenges :
    (now : ℕ) (es : Map ℕ Peer) (s : Server) → (expire_challenges now es s).registry ≡ s.registry
unfolding expire_challenges respond_challenge_result put_peer
registry-expire_challenges now [] s = refl
registry-expire_challenges now ((conn, p) ∷ es) s =
    registry-expire_challenges now es _ ∙ ground arith

pub registry-deliver_chat :
    (json : Json) (p : Packet) (r : ChatSend) (peer : Peer) (text : Str) (s : Server)
    → (deliver_chat json p r peer text s).registry ≡ s.registry
unfolding deliver_chat broadcast_to_peers dump_first net_call
registry-deliver_chat json p r peer text s =
    grind (arith, registry-broadcast_to_members, registry-broadcast_to_entries)

pub registry-handle_chat_send :
    (json : Json) (p : Packet) (r : Option ChatSend) (peer : Peer) (s : Server)
    → (handle_chat_send json p r peer s).registry ≡ s.registry
unfolding handle_chat_send put_peer
registry-handle_chat_send json p none peer s = refl
registry-handle_chat_send json p (some r) peer s = grind (arith, registry-deliver_chat)

pub registry-handle_forward :
    (json : Json) (p : Packet) (r : Option ForwardMessage) (peer : Peer) (s : Server)
    → (handle_forward json p r peer s).registry ≡ s.registry
unfolding handle_forward respond
registry-handle_forward json p none peer s = refl
registry-handle_forward json p (some r) peer s = ground arith

registry-send_to_others :
    (conn : ℕ) (m : Message) (ms : List LobbyMember) (s : Server)
    → (send_to_others conn m ms s).registry ≡ s.registry
unfolding send_to_others respond
registry-send_to_others conn m [] s = refl
registry-send_to_others conn m (x ∷ xs) s = registry-send_to_others conn m xs _ ∙ ground arith

pub registry-handle_battle_snapshot :
    (p : Packet) (peer : Peer) (s : Server)
    → (handle_battle_snapshot p peer s).registry ≡ s.registry
unfolding handle_battle_snapshot
registry-handle_battle_snapshot p peer s = grind (arith, registry-send_to_others)

pub registry-saw_ended : (key : Str) (s : Server) → (saw_ended key s).registry ≡ s.registry
unfolding saw_ended
registry-saw_ended key s = ground arith

pub registry-send_handoffs :
    (id : LobbyId) (es : List (LobbyMember × PendingHandoff)) (s : Server)
    → (send_handoffs id es s).registry ≡ s.registry
unfolding send_handoffs respond
registry-send_handoffs id [] s = refl
registry-send_handoffs id ((m, h) ∷ es) s = registry-send_handoffs id es _

pub registry-send_all_ready_to :
    (conns : List ℕ) (s : Server) → (send_all_ready_to conns s).registry ≡ s.registry
unfolding send_all_ready_to respond
registry-send_all_ready_to [] s = refl
registry-send_all_ready_to (c ∷ cs) s = registry-send_all_ready_to cs _

registry-void_challenges :
    (leaver : ℕ) (name : Str) (es : Map ℕ Peer) (s : Server)
    → (void_challenges leaver name es s).registry ≡ s.registry
unfolding void_challenges respond_challenge_result put_peer
registry-void_challenges leaver name [] s = refl
registry-void_challenges leaver name ((conn, p) ∷ es) s =
    registry-void_challenges leaver name es _ ∙ ground arith

pub registry-tell_challengers :
    (conn now : ℕ) (s : Server) → (tell_challengers conn now s).registry ≡ s.registry
unfolding tell_challengers
registry-tell_challengers conn now s =
    grind (arith, registry-void_challenges, registry-note_seat_death)

registry-relay_datagram :
    (now : ℕ) (d : Datagram) (s s' : Server)
    → relay_datagram now d s ≡ some s'
    → s'.registry ≡ s.registry
unfolding relay_datagram handle_registration register_seat forward_datagram net_call
registry-relay_datagram now d s s' e = ground (arith, e)

registry-relay_loop :
    (n now : ℕ) (ds : List Datagram) (s : Server) → (relay_loop n now ds s).registry ≡ s.registry
unfolding relay_loop
registry-relay_loop zero now ds s = refl
registry-relay_loop (suc n) now [] s = refl
registry-relay_loop (suc n) now (d ∷ ds) s = elim (Option-cases (relay_datagram now d s)) [
  | inl e ↦ rw (relay_loop, e) refl
  | inr (s', e) ↦
      rw (relay_loop, e) (registry-relay_loop n now ds s' ∙ registry-relay_datagram now d s s' e)
]

registry-probe_loop :
    (n i : ℕ) (ds : List Datagram) (s : Server) → (probe_loop n i ds s).registry ≡ s.registry
unfolding probe_loop answer_probe net_call
registry-probe_loop zero i ds s = refl
registry-probe_loop (suc n) i [] s = refl
registry-probe_loop (suc n) i (d ∷ ds) s =
    ground (arith, registry-probe_loop n i ds (answer_probe i d s))

pub registry-step_relay :
    (now : ℕ) (ds : List Datagram) (s : Server) → (step_relay now ds s).registry ≡ s.registry
unfolding step_relay
registry-step_relay now ds s = grind (arith, registry-relay_loop)

pub registry-step_probe :
    (i : ℕ) (b : Bool) (ds : List Datagram) (s : Server)
    → (step_probe i b ds s).registry ≡ s.registry
unfolding step_probe
registry-step_probe i b ds s = grind (arith, registry-probe_loop)
