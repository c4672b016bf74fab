-- ===== src/Server.antt =====
-- src/session/sf4e__SessionServer.hxx and .cxx, by the parts of the file.
pub mod State
pub mod Seats
pub mod Forensics
pub mod Join
pub mod Lobbies
pub mod Challenge
pub mod Matchmaking
pub mod Chat
pub mod Battle
pub mod Relay
pub mod Flush
pub mod Connection
pub mod Step
pub mod Life
pub mod Sound
pub mod Tests
