-- ===== src/Host/Watcher.antt =====
-- The watcher of a worker's stream, src/host/watcher.
pub mod Offsets
pub mod Dispatcher
