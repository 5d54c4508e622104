-- ===== src/Repository.antt =====
-- crates/repository: the canonical content tree, its index, and the application of change requests.
pub mod Layout
pub mod Index
pub mod Apply
