-- ===== src/Server/Life.antt =====
-- The serving loop of src/lobbyd/lobbyd.cxx: the callbacks that the network library runs, and one poll
-- after another, also after a poll that failed.
use sf4_rollback_gui.Prelude.{ℕ, List, [], ◌∷◌, if◌then◌else◌}
use sf4_rollback_gui.Server.State.{Server, has_ended}
use sf4_rollback_gui.Server.Connection.{StatusChange, on_status_changed, add_connection}
use sf4_rollback_gui.Server.Step.{Env, Input, step}

-- What the main loop and the network library do to a server.
pub data Event : Type 0 where
  polls : Input → Event
  changes : StatusChange → ℕ → ℕ → Event
  adds : ℕ → Event

unfoldable pub apply : Env → Event → Server → Server
apply env (polls i) s = (step env i s).1
apply env (changes c conn now) s = on_status_changed c conn now s
apply env (adds conn) s = add_connection conn s

-- Nothing happens to a server whose process has ended.
unfoldable pub run : Env → List Event → Server → Server
run env [] s = s
run env (e ∷ es) s = let rest = run env es (apply env e s) in if has_ended s then s else rest
