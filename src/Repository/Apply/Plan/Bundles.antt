-- ===== src/Repository/Apply/Plan/Bundles.antt =====
-- A move and then an attachment in one request, on the sample of `build_plan` of
-- crates/repository/src/apply.rs with a file beside the document.
use agent_knowledge.Prelude.{
  ◌≡◌, refl, false, some, [], ◌∷◌, ◌++◌, ◌==◌, nat_eq, list_eq, ok, err, text, list_beq, option_beq,
  lookup, is_utf8, trim, strip_prefix, if◌then◌else◌, List,
}
use agent_knowledge.Core.Document.Tests.{noon}
use agent_knowledge.Core.Request.{move_document, add_attachment}
use agent_knowledge.Core.Document.{
  decision, runbook, validate_common, validate_text, validate_optional_text, validate_tags,
}
use agent_knowledge.Core.Markdown.{
  split_inclusive, is_delimiter, strip_opening, front_matter_offset, extract_front_matter,
  decode_document_metadata,
}
use agent_knowledge.Repository.Layout.{
  create_document_path, archive_document_path, bundle_path, RelativePath, parent, dated_name,
}
use agent_knowledge.Repository.Index.{get}
use agent_knowledge.Repository.Apply.{
  PlannedMutation, write_new, move, present, missing, resolve_document, require_revision,
  require_mutable, require_movable, require_accessible, require_classification, payload_byte_length,
  find_payload, reserve_planned_bytes, read_payload, read_canonical_markdown,
  decode_payload_metadata, checked_add, from_record,
}
use agent_knowledge.Repository.Apply.Occupancy.{is_occupied, reserve, move_path}
use agent_knowledge.Repository.Apply.Archive.{
  archived_markdown, archived_size, markdown_body, opening_length, scan_body,
}
use agent_knowledge.Repository.Apply.Plan.{
  Planned, empty_planning, Setting, plan_update, plan_create, plan_move, plan_archive,
  plan_attachment, plan_operation, plan_operations, check_update, markdown_of, build_plan,
}
use agent_knowledge.Repository.Apply.Plan.Sample.{
  notes_path, indexed, files, setting, first_text, metadata_beq, time_beq,
}

abbrev decision_path : RelativePath
decision_path = create_document_path (some (text "cuda")) decision noon (text "A")

-- The index has a decision, in whose bundle there is a file `r.csv`.
abbrev with_attachment : Setting
with_attachment = record setting {
  contents = record {
    documents =
        (
          7,
          record indexed {
            relative_path = decision_path;
            location = record {
              document_type = decision;
              project = some (text "cuda");
              archived = false;
            };
          },
        )
        ∷ [];
  };
  files = record files {
    stat = λ path.
        if path == bundle_path decision_path decision ++ (text "r.csv" ∷ [])
        then present
        else missing;
  };
}

abbrev plan_of : Planned → List PlannedMutation
plan_of (ok p) = p.plan
plan_of (err e) = []

-- The plan is accepted: the decision becomes a runbook, and then a new `r.csv` is to be written into
-- its bundle, where the moved one is by then.
attaches_over_moved_file :
    plan_of (
      plan_operations with_attachment
        (move_document 7 first_text (some (text "cuda")) runbook
          ∷ (add_attachment 7 (text "c.md") (text "r.csv") ∷ []))
        empty_planning)
    ≡ move (bundle_path decision_path decision) (bundle_path notes_path runbook)
      ∷ (write_new (bundle_path notes_path runbook ++ (text "r.csv" ∷ [])) first_text ∷ [])
unfolding plan_update plan_create plan_move plan_archive plan_attachment plan_operation
    plan_operations build_plan check_update markdown_of resolve_document from_record lookup get
    require_revision list_beq require_mutable require_movable require_accessible
    require_classification option_beq payload_byte_length find_payload reserve_planned_bytes
    checked_add read_payload read_canonical_markdown decode_payload_metadata
    decode_document_metadata extract_front_matter front_matter_offset split_inclusive is_delimiter
    strip_opening strip_prefix is_utf8 validate_common validate_text validate_optional_text
    validate_tags trim create_document_path archive_document_path bundle_path is_occupied reserve
    move_path archived_markdown archived_size markdown_body opening_length scan_body metadata_beq
    time_beq parent dated_name
attaches_over_moved_file = refl
