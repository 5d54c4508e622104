-- ===== src/Repository/Apply/Plan/Writes.antt =====
-- The arms of `build_plan` of crates/repository/src/apply.rs that write a file: a creation, an update and
-- an attachment.
use agent_knowledge.Prelude.{
  false, not, ◌||◌, none, some, [], ◌∷◌, ◌++◌, ◌==◌, nat_eq, list_eq, option_eq, lookup, Result, ok,
  ◌>>=◌, ◌>>◌, reject, ok_or, text,
}
use agent_knowledge.Core.Path.{PayloadPath, AttachmentName}
use agent_knowledge.Core.Time.{OffsetDateTime, is_before, is_at_most, is_same}
use agent_knowledge.Core.Id.{DocumentId}
use agent_knowledge.Core.Revision.{Revision}
use agent_knowledge.Core.Document.{type_eq, DocumentMetadata, active, archived, status_eq}
use agent_knowledge.Repository.Layout.{RelativePath, parent, create_document_path, bundle_path}
use agent_knowledge.Repository.Index.{get}
use agent_knowledge.Repository.Apply.{
  VirtualDocument, write_new, replace, ApplyError, document_id_conflict, operation_forbidden,
  resolve_document, reserve_planned_bytes, require_revision, require_accessible, require_mutable,
  decode_payload_metadata, payload_byte_length, read_payload,
}
use agent_knowledge.Repository.Apply.Occupancy.{reserve}
use agent_knowledge.Repository.Apply.Archive.{previous_update}
use agent_knowledge.Repository.Apply.Plan.State.{
  Setting, Planning, Planned, request, is_some, updated_after,
}

module _ (s : Setting) where
  unfoldable pub plan_create : DocumentId → PayloadPath → Planning → Planned
  plan_create id content p = do
    reject (is_some (lookup id p.documents) || is_some (get s.contents id))
        (document_id_conflict id)
    size ← payload_byte_length s.claimed content
    planned ← reserve_planned_bytes p.planned_bytes size s.maximum_planned_bytes
    bytes ← read_payload s.crates s.files s.claimed content
    m ← decode_payload_metadata s.crates s.policy bytes content
    reject (is_before s.operation_time m.created || updated_after m.updated s.operation_time)
        (operation_forbidden id (text "document timestamps cannot follow request acceptance"))
    reject (m.status == archived)
        (operation_forbidden id (text "documents cannot be created with archived status"))
    let path =
        create_document_path (request s).project (request s).document_type m.created
          (s.crates.ulid_text id)
    occupancy ← reserve s.files p.occupancy (bundle_path path (request s).document_type)
    ok (record {
      plan = p.plan ++ (write_new path bytes ∷ []);
      documents =
          (
            id,
            record {
              relative_path = path;
              canonical_path = path;
              document_type = (request s).document_type;
              project = (request s).project;
              created = m.created;
              updated = m.updated;
              archived = false;
              status = m.status;
              revision = s.crates.sha256 bytes;
              markdown = some bytes;
            },
          )
          ∷ p.documents;
      occupancy = occupancy;
      planned_bytes = planned;
    })

  -- The checks of the payload of an update against the document.
  unfoldable pub check_update :
      VirtualDocument → DocumentId → DocumentMetadata → Result ApplyError OffsetDateTime
  check_update d id m = do
    reject (not (is_same m.created d.created))
        (operation_forbidden id (text "document creation time is immutable"))
    reject (m.status == archived)
        (operation_forbidden id (text "archive status requires an archive operation"))
    updated ←
        ok_or m.updated (operation_forbidden id (text "updated documents require an update time"))
    reject (is_before s.operation_time updated)
        (operation_forbidden id (text "document update time cannot follow request acceptance"))
    reject (is_at_most updated (previous_update d.updated d.created))
        (operation_forbidden id (text "document update time must increase"))
    ok updated

  unfoldable pub plan_update : DocumentId → Revision → PayloadPath → Planning → Planned
  plan_update id expected content p = do
    found ← resolve_document p.documents s.contents id
    let d = found.0
    require_revision d id expected
    require_mutable d id (request s).project (request s).document_type
    size ← payload_byte_length s.claimed content
    planned ← reserve_planned_bytes p.planned_bytes size s.maximum_planned_bytes
    bytes ← read_payload s.crates s.files s.claimed content
    m ← decode_payload_metadata s.crates s.policy bytes content
    updated ← check_update d id m
    ok (record p {
      plan = p.plan ++ (replace d.relative_path bytes ∷ []);
      documents =
          (
            id,
            record d {
              status = m.status;
              updated = some updated;
              revision = s.crates.sha256 bytes;
              markdown = some bytes;
            },
          )
          ∷ found.1;
      planned_bytes = planned;
    })

  -- `parent().unwrap_or_else(|| Path::new("")).join(name)`
  abbrev pub beside : RelativePath → AttachmentName → RelativePath
  beside path name = elim (parent path) [ none ↦ name ∷ [] | some dir ↦ dir ++ (name ∷ []) ]

  unfoldable pub plan_attachment : DocumentId → PayloadPath → AttachmentName → Planning → Planned
  plan_attachment id source name p = do
    found ← resolve_document p.documents s.contents id
    let d = found.0
    require_accessible d id (request s).project (request s).document_type
    reject (not (d.status == active))
        (operation_forbidden id (text "attachments require an active document"))
    occupancy ← reserve s.files p.occupancy (beside d.relative_path name)
    size ← payload_byte_length s.claimed source
    planned ← reserve_planned_bytes p.planned_bytes size s.maximum_planned_bytes
    bytes ← read_payload s.crates s.files s.claimed source
    ok (record {
      plan = p.plan ++ (write_new (beside d.relative_path name) bytes ∷ []);
      documents = found.1;
      occupancy = occupancy;
      planned_bytes = planned;
    })
