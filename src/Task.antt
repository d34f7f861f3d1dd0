-- ===== src/Task.antt =====
-- The lifecycle of a task: its manifest and the stage machine.
pub mod Stage
pub mod Manifest
pub mod Transition
pub mod Files
pub mod Gate
pub mod Advance
pub mod Commands
