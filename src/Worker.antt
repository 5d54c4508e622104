-- ===== src/Worker.antt =====
-- crates/worker: the schedule of its batches.
pub mod Schedule
