-- ===== src/Client/Agreement.antt =====
-- Two games that hold the same state never end a match by a report of a desync, on the client of
-- src/session/sf4e__SessionClient.cxx.
pub mod Run
use sf4_rollback_gui.Prelude.{
  ℕ, ◌≡◌, refl, sym, ◌∙◌, inl, inr, ◌⊎◌, ap, subst, Bool, true, false, not, ◌&&◌, List, [], ◌∷◌,
  Option, none, some, ℤ, Str, if◌then◌else◌, arith, Bool-cases, Option-cases, All,
}
use sf4_rollback_gui.Prelude.Map
use sf4_rollback_gui.Prelude.Map.{Map, int_key, All-insert, All-erase, All-find}
use sf4_rollback_gui.Protocol.{
  StateSnapshot, same_memory, same_memory_refl, Message, snapshot, hello_resp, join_rej,
  data_update, lobby_create_resp, lobby_list_resp, presence_list_resp, challenge_event,
  challenge_result, matchmake_event, chat_event, match_handoff, lobby_allready, battle_synced,
  forwarded, LobbyData, MatchData, JoinResult,
}
use sf4_rollback_gui.Client.State.{
  Client, Libraries, LocalSnapshot, Callbacks, new_client, send, call, Call, on_error,
}
use sf4_rollback_gui.Client.Snapshots.{
  Outcome, finished, failed, threw, exited, Progress, goes_on, stops, and_then, settle_snapshot,
  emplace, receive_snapshot, is_young, send_if_due, compare_pending, reconcile_entry, reconcile,
  reconcile_snapshots, capture_snapshot, is_capture_frame,
}
use sf4_rollback_gui.Client.Receive.{
  Incoming, not_json, no_type, unreadable, received, handle_incoming, handle_message,
}
use sf4_rollback_gui.Client.Step.{ClientInput, handle_messages, poll, client_step, end_step}
use sf4_rollback_gui.Client.Life.{
  Action, captures, polls, attaches, connects, disconnects, readies, changes_status, asks, act,
  live, is_over,
}

-- `game` gives the snapshot of each frame of the match.
module _ (game : ℤ → StateSnapshot) where
  abbrev LocalFits : ℤ × LocalSnapshot → Type 0
  LocalFits (k, e) = e.snapshot ≡ game k

  abbrev RemoteFits : ℤ × StateSnapshot → Type 0
  RemoteFits (k, s) = s ≡ game k

  pub record Agrees (c : Client) : Type 0 where
    pub local : All LocalFits c.snapshot_map
    pub remote : All RemoteFits c.pending_remote_snapshots

  -- No report of a desync, and tables that agree with the game.
  unfoldable pub GoesWell : Progress → Type 0
  GoesWell (goes_on c) = Agrees c
  GoesWell (stops finished c) = Agrees c
  GoesWell (stops failed c) = Agrees c
  GoesWell (stops threw c) = Agrees c
  GoesWell (stops (exited r) c) = ⊥

  pub Agrees-settle_snapshot :
      (k : ℤ) (e : LocalSnapshot) (c : Client)
      → e.snapshot ≡ game k
      → Agrees c
      → Agrees (settle_snapshot k e c)
  unfolding settle_snapshot
  Agrees-settle_snapshot k e c fits h = elim (Bool-cases (e.confirmed && e.sent)) [
    | inl y ↦
        rw y (record { local = All-erase LocalFits k c.snapshot_map h.local; remote = h.remote })
    | inr n ↦
        rw n (record {
          local = All-insert LocalFits k e c.snapshot_map fits h.local;
          remote = h.remote;
        })
  ]

  emplace-none :
      (k : ℤ) (s : StateSnapshot) (m : Map ℤ StateSnapshot)
      → Map.find k m ≡ none
      → emplace k s m ≡ Map.insert k s m
  unfolding emplace
  emplace-none k s m e = ground (arith, e)

  emplace-some :
      (k : ℤ) (s old : StateSnapshot) (m : Map ℤ StateSnapshot)
      → Map.find k m ≡ some old
      → emplace k s m ≡ m
  unfolding emplace
  emplace-some k s old m e = ground (arith, e)

  emplace-fits :
      (k : ℤ) (s : StateSnapshot) (m : Map ℤ StateSnapshot)
      → s ≡ game k
      → All RemoteFits m
      → All RemoteFits (emplace k s m)
  emplace-fits k s m fits h = elim (Option-cases (Map.find k m)) [
    | inl e ↦
        subst (All RemoteFits) (sym (emplace-none k s m e)) (All-insert RemoteFits k s m fits h)
    | inr (old, e) ↦ subst (All RemoteFits) (sym (emplace-some k s old m e)) h
  ]

  same_of_fits : (k : ℤ) (a b : StateSnapshot) → a ≡ game k → b ≡ game k → same_memory a b ≡ true
  same_of_fits k a b p q = rw (p, q) (same_memory_refl (game k))

  receive-none :
      (m : StateSnapshot) (c : Client)
      → Map.find m.frame_idx c.snapshot_map ≡ none
      → receive_snapshot m c
        ≡ goes_on (record c {
          pending_remote_snapshots = emplace m.frame_idx m c.pending_remote_snapshots;
        })
  unfolding receive_snapshot emplace
  receive-none m c e = rw (receive_snapshot, e) refl

  receive-some :
      (m : StateSnapshot) (c : Client) (e : LocalSnapshot)
      → Map.find m.frame_idx c.snapshot_map ≡ some e
      → same_memory m e.snapshot ≡ true
      → receive_snapshot m c
        ≡ goes_on (settle_snapshot m.frame_idx (record e { confirmed = true }) c)
  unfolding receive_snapshot settle_snapshot
  receive-some m c e found same = rw (receive_snapshot, found, same) refl

  pub receive_snapshot-GoesWell :
      (m : StateSnapshot) (c : Client)
      → m ≡ game m.frame_idx
      → Agrees c
      → GoesWell (receive_snapshot m c)
  unfolding GoesWell
  receive_snapshot-GoesWell m c fits h = elim (Option-cases (Map.find m.frame_idx c.snapshot_map)) [
    | inl e ↦ subst GoesWell (sym (receive-none m c e)) (record {
      local = h.local;
      remote = emplace-fits m.frame_idx m c.pending_remote_snapshots fits h.remote;
    })
    | inr (old, e) ↦
        let held : old.snapshot ≡ game m.frame_idx =
          All-find LocalFits m.frame_idx c.snapshot_map old h.local e in
        subst GoesWell
          (sym (receive-some m c old e (same_of_fits m.frame_idx m old.snapshot fits held)))
          (Agrees-settle_snapshot m.frame_idx (record old { confirmed = true }) c held h)
  ]

  Agrees-send_if_due : (e : LocalSnapshot) (c : Client) → Agrees c → Agrees (send_if_due e c)
  unfolding send_if_due send
  Agrees-send_if_due e c h = elim (Bool-cases e.sent) [
    | inl y ↦ rw y h
    | inr n ↦ rw n (record { local = h.local; remote = h.remote })
  ]

  pending_agreement :
      (k : ℤ) (e : LocalSnapshot) (c : Client)
      → e.snapshot ≡ game k
      → Agrees c
      → (compare_pending k e c).0 ≡ true
  unfolding compare_pending
  pending_agreement k e c fits h = elim (Option-cases (Map.find k c.pending_remote_snapshots)) [
    | inl m ↦ ground (arith, m)
    | inr (r, m) ↦ ground (
      arith,
      m,
      same_of_fits k r e.snapshot (All-find RemoteFits k c.pending_remote_snapshots r h.remote m)
          fits,
    )
  ]

  reconcile_entry-GoesWell :
      (k : ℤ) (e : LocalSnapshot) (c : Client)
      → e.snapshot ≡ game k
      → Agrees c
      → GoesWell (reconcile_entry k e c)
  unfolding reconcile_entry GoesWell
  reconcile_entry-GoesWell k e c fits h =
      rw (pending_agreement k e c fits h)
        (Agrees-settle_snapshot k _ (send_if_due e c) fits (Agrees-send_if_due e c h))

  pub and_then-GoesWell :
      (p : Progress) (next : Client → Progress)
      → ((c : Client) → Agrees c → GoesWell (next c))
      → GoesWell p
      → GoesWell (and_then p next)
  unfolding GoesWell
  and_then-GoesWell (goes_on c) next h w = h c w
  and_then-GoesWell (stops finished c) next h w = w
  and_then-GoesWell (stops failed c) next h w = w
  and_then-GoesWell (stops threw c) next h w = w
  and_then-GoesWell (stops (exited r) c) next h w = w

  reconcile-GoesWell :
      (recent : ℤ) (m : Map ℤ LocalSnapshot) (c : Client)
      → All LocalFits m
      → Agrees c
      → GoesWell (reconcile recent m c)
  unfolding reconcile GoesWell
  reconcile-GoesWell recent [] c fits h = h
  reconcile-GoesWell recent ((k, e) ∷ m) c fits h = elim (Bool-cases (is_young recent k)) [
    | inl y ↦ rw y (reconcile-GoesWell recent m c fits.1 h)
    | inr n ↦ rw n (
        and_then-GoesWell (reconcile_entry k e c) (reconcile recent m)
          (λ c' w. reconcile-GoesWell recent m c' fits.1 w)
          (reconcile_entry-GoesWell k e c fits.0 h))
  ]

  pub reconcile_snapshots-GoesWell :
      (recent : ℤ) (c : Client) → Agrees c → GoesWell (reconcile_snapshots recent c)
  unfolding reconcile_snapshots GoesWell
  reconcile_snapshots-GoesWell recent c h = elim (Bool-cases c.snapshots_enabled) [
    | inl y ↦ simp y (reconcile-GoesWell recent c.snapshot_map c h.local h)
    | inr n ↦ simp n h
  ]

  -- A capture of what the game holds.
  pub Agrees-capture :
      (s : StateSnapshot) (c : Client)
      → s ≡ game s.frame_idx
      → Agrees c
      → Agrees (capture_snapshot s c)
  unfolding capture_snapshot
  Agrees-capture s c fits h = elim (Bool-cases (is_capture_frame s.frame_idx)) [
    | inl y ↦ rw y (record {
      local = All-insert LocalFits s.frame_idx _ c.snapshot_map fits h.local;
      remote = h.remote;
    })
    | inr n ↦ rw n h
  ]

  -- Operations that leave the tables alone.
  pub Agrees-same :
      (c c' : Client)
      → c'.snapshot_map ≡ c.snapshot_map
      → c'.pending_remote_snapshots ≡ c.pending_remote_snapshots
      → Agrees c
      → Agrees c'
  Agrees-same c c' p q h = record {
    local = subst (All LocalFits) (sym p) h.local;
    remote = subst (All RemoteFits) (sym q) h.remote;
  }
