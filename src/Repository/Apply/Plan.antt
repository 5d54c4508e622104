-- ===== src/Repository/Apply/Plan.antt =====
-- `build_plan` of crates/repository/src/apply.rs: the loop over the operations. One handler for each
-- of them is in the three modules below. The maps and counters that the loop changes are one record; a
-- failure drops it, as the function does.
mod State
mod Writes
mod Relocations
pub mod Updates
pub mod Budget
pub mod Locking
pub mod Histories
pub mod Additions
pub mod Moves
pub mod Sample
mod Bundles
mod Tests
unfoldable pub use State.*
unfoldable pub use Writes.*
unfoldable pub use Relocations.*
use agent_knowledge.Prelude.{
  ℕ, Bool, true, false, not, ◌||◌, Option, none, some, List, [], ◌∷◌, ◌++◌, ◌==◌, nat_eq, list_eq,
  option_eq, if◌then◌else◌, lookup, Result, ok, err, ◌>>=◌, ◌>>◌, reject, ok_or, map_err, Bytes,
  Text, text,
}
use agent_knowledge.Core.Path.{ProjectId, PayloadPath, AttachmentName}
use agent_knowledge.Core.Time.{OffsetDateTime, is_before, is_at_most, is_same}
use agent_knowledge.Core.Id.{DocumentId}
use agent_knowledge.Core.Revision.{Revision}
use agent_knowledge.Core.Request.{
  Operation, create_document, update_document, move_document, archive_document, add_attachment,
  ChangeRequest,
}
use agent_knowledge.Core.Document.{
  DocumentType, index, log, type_eq, DocumentMetadata, active, archived, status_eq,
}
use agent_knowledge.Core.Markdown.{decode_document_metadata}
use agent_knowledge.Repository.Layout.{
  RelativePath, parent, create_document_path, archive_document_path, bundle_path,
}
use agent_knowledge.Repository.Index.{Crates, ContentPolicy, ContentIndex, get}
use agent_knowledge.Repository.Apply.{
  ValidatedPackage, Files, VirtualDocument, PlannedMutation, write_new, replace, move, ApplyError,
  Documents, request_created_after_acceptance, document_id_conflict, operation_forbidden,
  generated_document, resolve_document, reserve_planned_bytes, require_revision,
  require_classification, require_accessible, require_mutable, require_movable,
  decode_payload_metadata, payload_byte_length, read_payload, read_canonical_markdown,
}
use agent_knowledge.Repository.Apply.Occupancy.{Entries, reserve, move_path}
use agent_knowledge.Repository.Apply.Archive.{previous_update, archived_markdown}

module _ (s : Setting) where
  unfoldable pub plan_operation : Operation → Planning → Planned
  plan_operation (create_document id content) = plan_create s id content
  plan_operation (update_document id expected content) = plan_update s id expected content
  plan_operation (move_document id expected project t) = plan_move s id expected project t
  plan_operation (archive_document id expected) = plan_archive s id expected
  plan_operation (add_attachment id source name) = plan_attachment s id source name

  unfoldable pub plan_operations : List Operation → Planning → Planned
  plan_operations [] p = ok p
  plan_operations (op ∷ ops) p = plan_operation op p >>= plan_operations ops

abbrev pub operation_time_of : ValidatedPackage → OffsetDateTime
operation_time_of claimed = elim claimed.accepted_at [
  | none ↦ claimed.request.created_at
  | some accepted ↦ accepted
]

unfoldable pub build_plan :
    Crates
    → Files
    → ValidatedPackage
    → ContentIndex
    → ContentPolicy
    → ℕ
    → Result ApplyError (List PlannedMutation)
unfolding plan_operations
build_plan crates files claimed contents policy maximum_planned_bytes = do
  let time = operation_time_of claimed
  reject (is_before time claimed.request.created_at) request_created_after_acceptance
  p ←
      plan_operations
        (record {
          crates = crates;
          files = files;
          claimed = claimed;
          contents = contents;
          policy = policy;
          maximum_planned_bytes = maximum_planned_bytes;
          operation_time = time;
        })
        claimed.request.operations empty_planning
  ok p.plan
