-- ===== src/Client/Snapshots.antt =====
-- The desync detection: the branch MT_BATTLE_SNAPSHOT and the end of SessionClient::Step in
-- src/session/sf4e__SessionClient.cxx, CaptureSnapshot of src/sf4e/sf4e__Game__Battle__System.cxx.
pub mod Settled
use sf4_rollback_gui.Prelude.{
  ℕ, Bool, true, false, not, ◌&&◌, List, [], ◌∷◌, Option, none, some, ℤ, pos, negsuc, Str, lit,
  ◌==◌, ◌%◌, ◌+◌, if◌then◌else◌, int_sub, int_ltb,
}
use sf4_rollback_gui.Prelude.Map
use sf4_rollback_gui.Prelude.Map.{Map, int_key}
use sf4_rollback_gui.Protocol.{StateSnapshot, same_memory}
use sf4_rollback_gui.Client.State.{Client, LocalSnapshot, send_snapshot, send}

-- How a step comes to an end: 0, -1, an exception that Step does not catch, or the end of the process
-- by AbortGgpoMatch.
pub data Outcome : Type 0 where
  finished failed threw : Outcome
  exited : Str → Outcome

pub data Progress : Type 0 where
  goes_on : Client → Progress
  stops : Outcome → Client → Progress

-- The next part of a step, unless it has come to an end.
abbrev pub and_then : Progress → (Client → Progress) → Progress
and_then (goes_on c) next = next c
and_then (stops o c) next = stops o c

-- An entry is written back, or erased once it is confirmed and sent.
unfoldable pub settle_snapshot : ℤ → LocalSnapshot → Client → Client
settle_snapshot k e c =
    if e.confirmed && e.sent
    then record c { snapshot_map = Map.erase k c.snapshot_map }
    else record c { snapshot_map = Map.insert k e c.snapshot_map }

abbrev pub receipt_reason : Str
receipt_reason = lit "state desync detected between players (snapshot receipt)"

abbrev pub reconciliation_reason : Str
reconciliation_reason = lit "state desync detected between players (snapshot reconciliation)"

-- `emplace` keeps an entry that is there already.
unfoldable pub emplace : ℤ → StateSnapshot → Map ℤ StateSnapshot → Map ℤ StateSnapshot
emplace k s m = elim (Map.find k m) [ none ↦ Map.insert k s m | some old ↦ m ]

unfoldable pub receive_snapshot : StateSnapshot → Client → Progress
receive_snapshot m c = elim (Map.find m.frame_idx c.snapshot_map) [
  | none ↦
      goes_on
        (record c { pending_remote_snapshots = emplace m.frame_idx m c.pending_remote_snapshots })
  | some e ↦
      if same_memory m e.snapshot
      then goes_on (settle_snapshot m.frame_idx (record e { confirmed = true }) c)
      else stops (exited receipt_reason) c
]

abbrev pub snapshot_age : ℤ
snapshot_age = pos 60

unfoldable pub is_young : ℤ → ℤ → Bool
is_young recent k = int_ltb (int_sub recent k) snapshot_age

unfoldable pub send_if_due : LocalSnapshot → Client → Client
send_if_due e c = if e.sent then c else send (send_snapshot e.snapshot) c

-- The comparison with what the opponent sent earlier: whether it agrees, and whether the entry is
-- confirmed behind it.
unfoldable pub compare_pending : ℤ → LocalSnapshot → Client → Bool × Bool
compare_pending k e c =
    if e.confirmed then (true, true) else elim (Map.find k c.pending_remote_snapshots) [
      | none ↦ (true, false)
      | some r ↦ (same_memory r e.snapshot, true)
    ]

unfoldable pub reconcile_entry : ℤ → LocalSnapshot → Client → Progress
reconcile_entry k e c =
    let c' = send_if_due e c in
    let (agrees, is_confirmed) = compare_pending k e c in
    if agrees
    then goes_on (settle_snapshot k (record e { sent = true; confirmed = is_confirmed }) c')
    else stops (exited reconciliation_reason) c'

-- The loop over the map. Only the entry that the iterator stands on changes.
unfoldable pub reconcile : ℤ → Map ℤ LocalSnapshot → Client → Progress
reconcile recent [] c = goes_on c
reconcile recent ((k, e) ∷ rest) c =
    let skip = reconcile recent rest c in
    if is_young recent k
    then skip
    else and_then (reconcile_entry k e c) (λ c'. reconcile recent rest c')

unfoldable pub reconcile_snapshots : ℤ → Client → Progress
reconcile_snapshots recent c =
    if c.snapshots_enabled then reconcile recent c.snapshot_map c else goes_on c

-- `frameIdx % 60 != 0`, of a remainder that takes the sign of `frameIdx`.
unfoldable pub is_capture_frame : ℤ → Bool
is_capture_frame (pos n) = n % 60 == 0
is_capture_frame (negsuc n) = (n + 1) % 60 == 0

-- What the game's memory holds for the frame is an input.
unfoldable pub capture_snapshot : StateSnapshot → Client → Client
capture_snapshot s c =
    if is_capture_frame s.frame_idx
    then record c {
      snapshot_map =
          Map.insert s.frame_idx (record { snapshot = s; sent = false; confirmed = false })
            c.snapshot_map;
    }
    else c
