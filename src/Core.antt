-- ===== src/Core.antt =====
-- crates/core: the domain types that the other crates share.
pub mod Path
pub mod Revision
pub mod Time
pub mod Id
pub mod ErrorCode
pub mod Document
pub mod Markdown
pub mod Request
