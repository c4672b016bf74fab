-- ===== src/Server/Sound/Flushing.antt =====
-- The flush at the end of a step (src/session/sf4e__SessionServer.cxx) keeps the lobbies sound.
use sf4_rollback_gui.Prelude.{
  ℕ, ◌≡◌, refl, ◌∙◌, inl, inr, List, [], ◌∷◌, some, Option-cases, Bool-cases, Str,
}
use sf4_rollback_gui.Protocol.{lobby_allready, battle_synced}
use sf4_rollback_gui.Registry.{Lobby, clear_handoffs}
use sf4_rollback_gui.Server.State.{Server, broadcast_to_members, find_lobby, put_lobby}
use sf4_rollback_gui.Server.Flush.{
  relay_endpoint, flush_update, flush_all_ready, send_all_ready_to, flush_pending_sends,
  flush_synced, flush_lobby, flush_keys, flush,
}
use sf4_rollback_gui.Server.Sound.{
  IsSound, SameSeats, IsSound-eq, find_lobby-registry, same-IsSound,
}
use sf4_rollback_gui.Server.Sound.Frame.{
  registry-broadcast_to_members, registry-relay_endpoint, registry-send_handoffs,
  registry-send_all_ready_to,
}

-- A lobby that is written over itself in a state with the same registry.
after-IsSound :
    (key : Str) (l l' : Lobby) (s s' : Server)
    → s'.registry ≡ s.registry
    → find_lobby key s ≡ some l
    → SameSeats l l'
    → IsSound s.registry
    → IsSound (put_lobby key l' s').registry
after-IsSound key l l' s s' same e seats v =
    same-IsSound s' key l l' (find_lobby-registry key s s' same ∙ e) seats (IsSound-eq same v)

flush_update-IsSound :
    (key : Str) (now : ℕ) (s : Server)
    → IsSound s.registry
    → IsSound (flush_update key now s).registry
unfolding flush_update relay_endpoint
flush_update-IsSound key now s v = elim (Option-cases (find_lobby key s)) [
  | inl e ↦ rw (flush_update, e) v
  | inr (l, e) ↦ elim (Bool-cases l.dirty) [
    | inl dirty ↦
        rw (flush_update, e, dirty, registry-broadcast_to_members)
          (after-IsSound key l _ s (relay_endpoint l now s).1 (registry-relay_endpoint l now s) e
            (record {
              same_id = refl;
              same_size = refl;
              same_capacity = refl;
              same_persistent = refl;
            })
            v)
    | inr clean ↦ rw (flush_update, e, clean) v
  ]
]

flush_all_ready-IsSound :
    (gen : ℕ → ℕ) (key : Str) (now : ℕ) (s : Server)
    → IsSound s.registry
    → IsSound (flush_all_ready gen key now s).registry
unfolding flush_all_ready clear_handoffs
flush_all_ready-IsSound gen key now s v = elim (Option-cases (find_lobby key s)) [
  | inl e ↦ rw (flush_all_ready, e) v
  | inr (l, e) ↦ elim (Bool-cases l.send_all_ready) [
    | inl due ↦
        rw (flush_all_ready, e, due, registry-send_handoffs)
          (after-IsSound key l _ s (broadcast_to_members l.members lobby_allready s)
            (registry-broadcast_to_members l.members lobby_allready s) e
            (record {
              same_id = refl;
              same_size = refl;
              same_capacity = refl;
              same_persistent = refl;
            })
            v)
    | inr idle ↦ rw (flush_all_ready, e, idle) v
  ]
]

flush_pending_sends-IsSound :
    (key : Str) (s : Server) → IsSound s.registry → IsSound (flush_pending_sends key s).registry
unfolding flush_pending_sends
flush_pending_sends-IsSound key s v = elim (Option-cases (find_lobby key s)) [
  | inl e ↦ rw (flush_pending_sends, e) v
  | inr (l, e) ↦
      rw (flush_pending_sends, e)
        (after-IsSound key l _ s (send_all_ready_to l.pending_all_ready_sends s)
          (registry-send_all_ready_to l.pending_all_ready_sends s) e
          (record {
            same_id = refl;
            same_size = refl;
            same_capacity = refl;
            same_persistent = refl;
          })
          v)
]

flush_synced-IsSound :
    (key : Str) (s : Server) → IsSound s.registry → IsSound (flush_synced key s).registry
unfolding flush_synced
flush_synced-IsSound key s v = elim (Option-cases (find_lobby key s)) [
  | inl e ↦ rw (flush_synced, e) v
  | inr (l, e) ↦ elim (Bool-cases l.send_battle_synced) [
    | inl due ↦
        rw (flush_synced, e, due)
          (after-IsSound key l _ s (broadcast_to_members l.members battle_synced s)
            (registry-broadcast_to_members l.members battle_synced s) e
            (record {
              same_id = refl;
              same_size = refl;
              same_capacity = refl;
              same_persistent = refl;
            })
            v)
    | inr idle ↦ rw (flush_synced, e, idle) v
  ]
]

flush_keys-IsSound :
    (gen : ℕ → ℕ) (now : ℕ) (keys : List Str) (s : Server)
    → IsSound s.registry
    → IsSound (flush_keys gen now keys s).registry
unfolding flush_keys flush_lobby
flush_keys-IsSound gen now [] s v = v
flush_keys-IsSound gen now (key ∷ keys) s v = flush_keys-IsSound gen now keys _ (
    flush_synced-IsSound key _ (
      flush_pending_sends-IsSound key _
        (flush_all_ready-IsSound gen key now _ (flush_update-IsSound key now s v))))

pub flush-IsSound :
    (gen : ℕ → ℕ) (now : ℕ) (s : Server) → IsSound s.registry → IsSound (flush gen now s).registry
unfolding flush
flush-IsSound gen now s v = flush_keys-IsSound gen now _ s v
