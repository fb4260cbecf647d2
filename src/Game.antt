-- ===== src/Game.antt =====
-- internal/game: turns of a story against stored sessions.
pub mod Types
pub mod Fault
pub mod Command
pub mod Transcript
pub mod SaveName
pub mod Runner
pub mod Library
pub mod Store
pub mod Memory
pub mod Screen
pub mod Lock
pub mod Service
