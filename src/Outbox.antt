-- ===== src/Outbox.antt =====
-- internal/outbox: the durable queue of intents, and the dispatcher that drains it.
pub mod Payload
pub mod Row
pub mod Failure
pub mod Claim
pub mod Plan
pub mod World
pub mod Outcome
pub mod Dependents
pub mod Create
pub mod Move
pub mod Batch
pub mod Pass
pub mod Finalize
pub mod Undo
pub mod Enqueue
pub mod Bulk
