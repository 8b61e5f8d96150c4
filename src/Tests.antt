-- ===== src/Tests.antt =====
-- Examples: concrete inputs at which the theorems apply.
pub mod Data
pub mod Devices
pub mod State
pub mod Wire
pub mod Playback
pub mod Session
pub mod Audio
pub mod Extension
pub mod Network
pub mod Solver
