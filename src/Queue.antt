-- ===== src/Queue.antt =====
-- crates/queue: the durable queue between the gateway and the worker, one directory for each state of a
-- request.
pub mod Disk
pub mod Failures
pub mod Lookup
pub mod Acceptance
pub mod Claims
pub mod Results
pub mod Steps
pub mod Session
pub mod Batch
pub mod Reconciliation
pub mod Recovery
mod Sample
mod Tests
mod Scenarios
