-- ===== src/Game.antt =====
-- The parts of the game's hooks in src/sf4e/sf4e__Game__Battle__System.cxx that drive a rollback
-- session: the frames of a battle, the checksum of a saved state, and the check of a re-simulation.
pub mod Frames
pub mod Checksum
pub mod Synctest
pub mod States
pub mod Tests
