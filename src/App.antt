-- ===== src/App.antt =====
-- The state and the logic of the lobby client in src/client/lobby_client.cxx: the callbacks of its
-- session client, its actions, and the return to the lobby when a game ends. What its windows draw is
-- left out.
pub mod State
pub mod Callbacks
pub mod Actions
pub mod Settings
pub mod Tests
