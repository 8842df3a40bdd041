-- ===== src/Jmap.antt =====
-- The JMAP library: the parts of it that compute.
pub mod Splice
pub mod Pointer
pub mod Events
pub mod EventSource
pub mod Resolve
pub mod Patch
