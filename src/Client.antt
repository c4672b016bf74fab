-- ===== src/Client.antt =====
-- src/session/sf4e__SessionClient.cxx and .hxx: one player's end of a session, as the Windows build
-- compiles it.
pub mod State
pub mod Requests
pub mod Connection
pub mod Snapshots
pub mod Receive
pub mod Step
pub mod Rejection
pub mod Life
pub mod Tests
pub mod Agreement
