-- ===== src/Client/Life.antt =====
-- A client's life: calls of the public functions of SessionClient
-- (src/session/sf4e__SessionClient.hxx), the network library's callback, and the snapshots that the
-- game of its process captures, in any order.
use sf4_rollback_gui.Prelude.{ℕ, Bool, true, false, List, [], ◌∷◌, if◌then◌else◌}
use sf4_rollback_gui.Protocol.{Request, StateSnapshot}
use sf4_rollback_gui.Client.State.{Client, Libraries, IpAddress}
use sf4_rollback_gui.Client.Requests.{ask, lobby_ready_request}
use sf4_rollback_gui.Client.Connection.{
  ConnectionState, connect_existing, connect, disconnect, status_changed,
}
use sf4_rollback_gui.Client.Snapshots.{Outcome, finished, failed, threw, exited, capture_snapshot}
use sf4_rollback_gui.Client.Step.{ClientInput, client_step}

-- `asks` is any request but Lobby_Ready.
pub data Action : Type 0 where
  captures : StateSnapshot → Action
  polls : ClientInput → Action
  attaches : ℕ → Action
  connects : IpAddress → ℕ → Action
  disconnects readies : Action
  changes_status : ConnectionState → ℕ → Action
  asks : Request → Action

unfoldable pub act : Libraries → Action → Client → Outcome × Client
act libs (captures s) c = (finished, capture_snapshot s c)
act libs (polls i) c = client_step libs i c
act libs (attaches conn) c = (finished, connect_existing conn c)
act libs (connects addr handle) c = (finished, connect addr handle c)
act libs disconnects c = (finished, disconnect c)
act libs readies c = (finished, (lobby_ready_request libs c).1)
act libs (changes_status s handle) c = (finished, status_changed s handle c)
act libs (asks r) c = (finished, (ask libs r c).1)

-- Whether the process has come to an end.
unfoldable pub is_over : Outcome → Bool
is_over finished = false
is_over failed = false
is_over threw = true
is_over (exited reason) = true

unfoldable pub live : Libraries → List Action → Client → Outcome × Client
live libs [] c = (finished, c)
live libs (a ∷ rest) c =
    let (o, c') = act libs a c in
    let later = live libs rest c' in if is_over o then (o, c') else later
