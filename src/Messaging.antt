-- ===== src/Messaging.antt =====
-- The messaging subsystem: src/messaging.
pub mod Kinds
pub mod Extras
pub mod Schema
pub mod State
pub mod Log
pub mod Bus
pub mod Recovery
