-- ===== src/Server/Flush.antt =====
-- The end of SessionServer::Step of src/session/sf4e__SessionServer.cxx: what each lobby owes its
-- members is sent, and the choice between direct and relayed play is made.
pub mod Handoffs
use sf4_rollback_gui.Prelude.{
  ℕ, zero, suc, ◌+◌, ◌*◌, ◌/◌, ◌%◌, ◌^◌, Bool, true, false, not, ◌&&◌, ◌||◌, List, [], ◌∷◌, ◌++◌,
  map, Option, none, some, Str, lit, is_empty, ltb, ◌==◌, if◌then◌else◌, to_string,
}
use sf4_rollback_gui.Prelude.Map
use sf4_rollback_gui.Prelude.Map.{Map}
use sf4_rollback_gui.Protocol.{
  needs_relay_flag, LobbyId, data_update, lobby_allready, match_handoff, battle_synced,
}
use sf4_rollback_gui.Registry.{Lobby, LobbyMember, PendingHandoff, to_lobby_data, clear_handoffs}
use sf4_rollback_gui.Server.State.{
  Server, respond, broadcast_to_members, find_peer, find_lobby, put_lobby,
}
use sf4_rollback_gui.Server.Forensics.{needs_relay_fallback}

unfoldable pub hex_digit : ℕ → ℕ
hex_digit n = if ltb n 10 then 48 + n else 87 + n

-- `%0kllx`: exactly `k` digits, for a number below 16 ^ k.
unfoldable pub hex : ℕ → ℕ → Str → Str
hex zero n acc = acc
hex (suc k) n acc = hex k (n / 16) (hex_digit (n % 16) ∷ acc)

-- GenerateHandoffToken: two draws of the generator; the k-th token takes draws 2 k and 2 k + 1.
unfoldable pub handoff_token : (ℕ → ℕ) → ℕ → Str
handoff_token gen k = hex 16 (gen (2 * k) % 2 ^ 64) (hex 16 (gen (2 * k + 1) % 2 ^ 64) [])

unfoldable pub seat_needs_relay : ℕ → Server → Bool
seat_needs_relay conn s = elim (find_peer conn s) [
  | none ↦ false
  | some p ↦ needs_relay_flag p.nat_flags
]

-- Either game reported such a NAT, or the pair's last direct attempt never started a battle.
unfoldable pub needs_relay : List LobbyMember → ℕ → Server → Bool × Server
needs_relay (a ∷ b ∷ rest) now s =
    if seat_needs_relay a.conn s || seat_needs_relay b.conn s
    then (true, s)
    else needs_relay_fallback (a ∷ b ∷ rest) now s
needs_relay _ now s = (false, s)

-- `_identity.substr(0, _identity.find(':'))`
unfoldable pub host_part : Str → Str
host_part [] = []
host_part (c ∷ s) = if c == b':' then [] else c ∷ host_part s

unfoldable pub relay_text : Server → Str
relay_text s =
    if is_empty (host_part s.identity)
    then []
    else host_part s.identity ++ (b':' ∷ to_string s.relay_port)

unfoldable pub relay_endpoint : Lobby → ℕ → Server → Str × Server
relay_endpoint l now s =
    let (needed, s') = needs_relay l.members now s in
    if s.relay_bound then (if needed then relay_text s else [], s') else ([], s)

unfoldable pub flush_update : Str → ℕ → Server → Server
flush_update key now s = elim (find_lobby key s) [
  | none ↦ s
  | some l ↦
      let (endpoint, s') = relay_endpoint l now s in
      let routed : Lobby = record l {
        match_data = record (l.match_data) { relay_endpoint = endpoint };
      } in
      if l.dirty
      then broadcast_to_members l.members (data_update (to_lobby_data routed) routed.match_data)
          (put_lobby key (record routed { dirty = false }) s')
      else s
]

-- A token for each of the first two seats, from the `k`-th token on.
unfoldable pub issue_tokens :
    (ℕ → ℕ) → ℕ → ℕ → ℕ → List LobbyMember → List (LobbyMember × PendingHandoff)
issue_tokens gen k seat now [] = []
issue_tokens gen k seat now (m ∷ ms) =
    let rest = issue_tokens gen (suc k) (suc seat) now ms in
    let first : LobbyMember × PendingHandoff =
      (m, record { token = handoff_token gen k; seat = seat; issued_at_ms = now }) in
    if ltb seat 2 then first ∷ rest else []

unfoldable pub send_handoffs : LobbyId → List (LobbyMember × PendingHandoff) → Server → Server
send_handoffs id [] s = s
send_handoffs id ((m, h) ∷ rest) s =
    send_handoffs id rest
      (respond m.conn (match_handoff h.token id) (record s { tokens_drawn = suc s.tokens_drawn }))

unfoldable pub flush_all_ready : (ℕ → ℕ) → Str → ℕ → Server → Server
flush_all_ready gen key now s = elim (find_lobby key s) [
  | none ↦ s
  | some l ↦
      let issued = issue_tokens gen s.tokens_drawn 0 now l.members in
      let ready = record (clear_handoffs (record l { send_all_ready = false })) {
        pending_handoffs = map (λ e. e.1) issued;
      } in
      if l.send_all_ready
      then send_handoffs l.id issued
          (put_lobby key ready (broadcast_to_members l.members lobby_allready s))
      else s
]

unfoldable pub send_all_ready_to : List ℕ → Server → Server
send_all_ready_to [] s = s
send_all_ready_to (conn ∷ rest) s = send_all_ready_to rest (respond conn lobby_allready s)

unfoldable pub flush_pending_sends : Str → Server → Server
flush_pending_sends key s = elim (find_lobby key s) [
  | none ↦ s
  | some l ↦
      put_lobby key (record l { pending_all_ready_sends = [] })
        (send_all_ready_to l.pending_all_ready_sends s)
]

unfoldable pub flush_synced : Str → Server → Server
flush_synced key s = elim (find_lobby key s) [
  | none ↦ s
  | some l ↦
      if l.send_battle_synced
      then put_lobby key (record l { send_battle_synced = false })
          (broadcast_to_members l.members battle_synced s)
      else s
]

unfoldable pub flush_lobby : (ℕ → ℕ) → Str → ℕ → Server → Server
flush_lobby gen key now s =
    flush_synced key
      (flush_pending_sends key (flush_all_ready gen key now (flush_update key now s)))

-- The loop over the lobbies; no round adds or removes one.
unfoldable pub flush_keys : (ℕ → ℕ) → ℕ → List Str → Server → Server
flush_keys gen now [] s = s
flush_keys gen now (key ∷ keys) s = flush_keys gen now keys (flush_lobby gen key now s)

unfoldable pub flush : (ℕ → ℕ) → ℕ → Server → Server
flush gen now s = flush_keys gen now (map (λ e. e.0) s.registry.lobbies) s
