-- ===== src/State.antt =====
-- The state of the extension (addon/extensions/task_force_radio_pipe/src/State.h and State.cpp).
-- Every handler holds the mutex from its first to its last access, so each is one step.
pub mod Data
pub mod Parse
pub mod Handlers
pub mod World
pub mod Queries
pub mod Solver
pub mod WellFormed
pub mod Feeds
pub mod Life
