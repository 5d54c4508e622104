-- ===== src/Repository/Apply/Plan/Relocations.antt =====
-- The arms of `build_plan` of crates/repository/src/apply.rs that move a bundle: a move and an archiving.
use agent_knowledge.Prelude.{
  true, not, ◌||◌, Option, none, some, [], ◌∷◌, ◌++◌, ◌==◌, nat_eq, list_eq, option_eq, Result, ok,
  ◌>>=◌, ◌>>◌, reject, map_err, Bytes, text,
}
use agent_knowledge.Core.Path.{ProjectId}
use agent_knowledge.Core.Id.{DocumentId}
use agent_knowledge.Core.Revision.{Revision}
use agent_knowledge.Core.Document.{DocumentType, index, log, type_eq, archived, status_eq}
use agent_knowledge.Core.Markdown.{decode_document_metadata}
use agent_knowledge.Repository.Layout.{create_document_path, archive_document_path, bundle_path}
use agent_knowledge.Repository.Apply.{
  VirtualDocument, replace, move, ApplyError, operation_forbidden, generated_document,
  resolve_document, require_revision, require_classification, require_movable,
  read_canonical_markdown,
}
use agent_knowledge.Repository.Apply.Occupancy.{move_path}
use agent_knowledge.Repository.Apply.Archive.{archived_markdown}
use agent_knowledge.Repository.Apply.Plan.State.{Setting, Planning, Planned, request}

module _ (s : Setting) where
  unfoldable pub plan_move :
      DocumentId → Revision → Option ProjectId → DocumentType → Planning → Planned
  plan_move id expected project document_type p = do
    reject
        (not (document_type == (request s).document_type) || not (project == (request s).project))
        (operation_forbidden id (text "move destination differs from request classification"))
    reject (document_type == log || document_type == index)
        (operation_forbidden id (text "documents cannot be moved into log or index classification"))
    found ← resolve_document p.documents s.contents id
    let d = found.0
    require_revision d id expected
    require_movable d id
    let destination = create_document_path project document_type d.created (s.crates.ulid_text id)
    let source_bundle = bundle_path d.relative_path d.document_type
    let destination_bundle = bundle_path destination document_type
    occupancy ← move_path s.files p.occupancy source_bundle destination_bundle
    ok (record p {
      plan = p.plan ++ (move source_bundle destination_bundle ∷ []);
      documents =
          (
            id,
            record d {
              relative_path = destination;
              document_type = document_type;
              project = project;
            },
          )
          ∷ found.1;
      occupancy = occupancy;
    })

  -- `document.markdown`, read from the content tree where nothing was planned for it.
  unfoldable pub markdown_of : VirtualDocument → Result ApplyError Bytes
  markdown_of d = elim d.markdown [
    | some bytes ↦ ok bytes
    | none ↦
        read_canonical_markdown s.crates s.files d.canonical_path s.policy.maximum_markdown_bytes
          d.revision
  ]

  unfoldable pub plan_archive : DocumentId → Revision → Planning → Planned
  plan_archive id expected p = do
    found ← resolve_document p.documents s.contents id
    let d = found.0
    require_revision d id expected
    require_classification d id (request s).project (request s).document_type
    require_movable d id
    let destination =
        archive_document_path d.project d.document_type d.relative_path (s.crates.ulid_text id)
    let destination_bundle = bundle_path destination d.document_type
    let source_bundle = bundle_path d.relative_path d.document_type
    occupancy ← move_path s.files p.occupancy source_bundle destination_bundle
    bytes ← markdown_of d
    generated ←
        archived_markdown s.crates s.policy bytes (request s).request_id s.operation_time
          p.planned_bytes s.maximum_planned_bytes
    checked ← map_err generated_document (
        decode_document_metadata s.crates.decode_yaml generated.0
          s.policy.maximum_front_matter_bytes)
    ok (record {
      plan =
          p.plan
          ++ (replace d.relative_path generated.0 ∷ (move source_bundle destination_bundle ∷ []));
      documents =
          (
            id,
            record d {
              relative_path = destination;
              archived = true;
              status = archived;
              updated = some s.operation_time;
              revision = s.crates.sha256 generated.0;
              markdown = none;
            },
          )
          ∷ found.1;
      occupancy = occupancy;
      planned_bytes = generated.1;
    })
