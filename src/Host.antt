-- ===== src/Host.antt =====
-- The parts of src/host/ that decide without I/O: the retry loop, the wake cursor, the watchdog and the
-- dispatch of a tick.
pub mod Retry
pub mod Wake
pub mod Watchdog
pub mod Criteria
pub mod Watcher
pub mod Events
pub mod Sessions
pub mod Recovery
pub mod Daemon
