-- ===== src/Sync.antt =====
-- internal/sync: the engine that keeps the store equal to the server, and its push loop.
pub mod Kinds
pub mod Backoff
pub mod Listen
pub mod Push
pub mod Flush
pub mod Echo
pub mod Run
pub mod Records
pub mod Resync
pub mod Bulk
pub mod Cycle
