-- ===== src/Repository/Apply/Plan/Tests.antt =====
-- Plans of single operations on the sample, with the laws of the planning at them.
use agent_knowledge.Prelude.{
  ◌≡◌, ◌≢◌, ◌≤◌, List, refl, false, none, some, [], ◌∷◌, Result, ok, err, text, list_beq,
  option_beq, lookup, is_utf8, trim, strip_prefix,
}
use agent_knowledge.Core.Time.{is_before}
use agent_knowledge.Core.Document.Tests.{noon}
use agent_knowledge.Core.Request.{Operation, update_document, add_attachment, create_document}
use agent_knowledge.Core.Document.{
  decision, runbook, validate_common, validate_text, validate_optional_text, validate_tags,
}
use agent_knowledge.Core.Markdown.{
  split_inclusive, is_delimiter, strip_opening, front_matter_offset, extract_front_matter,
  decode_document_metadata,
}
use agent_knowledge.Repository.Layout.{
  create_document_path, archive_document_path, bundle_path, parent, dated_name,
}
use agent_knowledge.Repository.Index.{get}
use agent_knowledge.Repository.Apply.{
  ApplyError, revision_conflict, VirtualDocument, PlannedMutation, resolve_document,
  require_revision, require_mutable, require_movable, require_accessible, require_classification,
  payload_byte_length, find_payload, reserve_planned_bytes, read_payload, read_canonical_markdown,
  decode_payload_metadata, checked_add, from_record,
}
use agent_knowledge.Repository.Apply.Occupancy.{is_occupied, reserve, move_path}
use agent_knowledge.Repository.Apply.Archive.{
  archived_markdown, archived_size, markdown_body, opening_length, scan_body,
}
use agent_knowledge.Repository.Apply.Plan.{
  Planning, operation_time_of, Planned, empty_planning, plan_update, plan_create, plan_move,
  plan_archive, plan_attachment, plan_operation, plan_operations, check_update, markdown_of,
  build_plan,
}
use agent_knowledge.Repository.Apply.Plan.Sample.{
  indexed, contents, crates, files, policy, claimed, setting, moved_setting, first_text,
  metadata_beq, time_beq,
}
use agent_knowledge.Repository.Apply.Guards.{current}
use agent_knowledge.Repository.Apply.Plan.Additions.{
  IsCreation, IsAttachment, plan_create_sound, plan_attachment_sound,
}
use agent_knowledge.Repository.Apply.Plan.Moves.{
  IsMove, IsArchiving, plan_move_sound, plan_archive_sound,
}
use agent_knowledge.Repository.Apply.Plan.Histories.{Evolves, plan_operations-Preserves}
use agent_knowledge.Repository.Apply.Plan.Locking.{stale_revision_refused, stale_move_refused}
use agent_knowledge.Repository.Apply.Plan.Budget.{written, build_plan-bounded}
use agent_knowledge.Repository.Apply.Plan.Updates.{IsUpdate, plan_update_sound}

abbrev planned : Planned → Planning
planned (ok p) = p
planned (err e) = empty_planning

-- The results of the five handlers, in one equation each.
abbrev updating : Planned
updating = plan_update setting 7 first_text (text "u.md") empty_planning

abbrev creating : Planned
creating = plan_create setting 8 (text "c.md") empty_planning

abbrev moving : Planned
moving = plan_move moved_setting 7 first_text (some (text "cuda")) decision empty_planning

abbrev archiving : Planned
archiving = plan_archive setting 7 first_text empty_planning

abbrev attaching : Planned
attaching = plan_attachment setting 7 (text "c.md") (text "r.csv") empty_planning

abbrev sequence_operations : List Operation
sequence_operations =
    update_document 7 first_text (text "u.md")
    ∷ (add_attachment 7 (text "c.md") (text "r.csv") ∷ (create_document 8 (text "c.md") ∷ []))

abbrev sequence : Planned
sequence = plan_operations setting sequence_operations empty_planning

succeeds :
    (updating ≡ ok (planned updating))
    × (creating ≡ ok (planned creating))
    × (moving ≡ ok (planned moving))
    × (archiving ≡ ok (planned archiving))
    × (attaching ≡ ok (planned attaching))
    × (sequence ≡ ok (planned sequence))
unfolding plan_update plan_create plan_move plan_archive plan_attachment plan_operation
    plan_operations build_plan check_update markdown_of resolve_document from_record lookup get
    require_revision list_beq require_mutable require_movable require_accessible
    require_classification option_beq payload_byte_length find_payload reserve_planned_bytes
    checked_add read_payload read_canonical_markdown decode_payload_metadata
    decode_document_metadata extract_front_matter front_matter_offset split_inclusive is_delimiter
    strip_opening strip_prefix is_utf8 validate_common validate_text validate_optional_text
    validate_tags trim create_document_path archive_document_path bundle_path is_occupied reserve
    move_path archived_markdown archived_size markdown_body opening_length scan_body metadata_beq
    time_beq parent dated_name
succeeds = (refl, refl, refl, refl, refl, refl)

known : current contents empty_planning.documents 7 ≡ some (from_record indexed)
unfolding current lookup get
known = refl

unknown : current contents empty_planning.documents 8 ≡ none
unfolding current lookup get
unknown = refl

plan_update_sound_example : IsUpdate setting 7 first_text empty_planning (planned updating)
plan_update_sound_example =
    plan_update_sound setting 7 first_text (text "u.md") empty_planning (planned updating)
      succeeds.0

plan_create_sound_example : IsCreation setting 8 empty_planning (planned creating)
plan_create_sound_example =
    plan_create_sound setting 8 empty_planning (planned creating) (text "c.md") succeeds.1

plan_move_sound_example :
    IsMove moved_setting 7 first_text empty_planning (planned moving) (some (text "cuda")) decision
plan_move_sound_example =
    plan_move_sound moved_setting 7 first_text empty_planning (planned moving) (some (text "cuda"))
      decision succeeds.2

plan_archive_sound_example : IsArchiving setting 7 first_text empty_planning (planned archiving)
plan_archive_sound_example =
    plan_archive_sound setting 7 first_text empty_planning (planned archiving) succeeds.3

plan_attachment_sound_example :
    IsAttachment setting 7 (text "r.csv") empty_planning (planned attaching)
plan_attachment_sound_example =
    plan_attachment_sound setting 7 empty_planning (planned attaching) (text "c.md") (text "r.csv")
      succeeds.4

plan_operations-Preserves_example :
    (d' : VirtualDocument) × (current contents (planned sequence).documents 7 ≡ some d')
    × Evolves setting (from_record indexed) d'
plan_operations-Preserves_example =
    plan_operations-Preserves setting sequence_operations empty_planning (planned sequence)
      succeeds.5 7 (from_record indexed) known

stale : (from_record indexed).revision ≢ []
unfolding from_record
stale = λ e. cc

stale_revision_refused_example :
    (plan_update setting 7 [] (text "u.md") empty_planning
      ≡ err (revision_conflict 7 [] first_text))
    × (plan_archive setting 7 [] empty_planning ≡ err (revision_conflict 7 [] first_text))
unfolding from_record
stale_revision_refused_example =
    stale_revision_refused setting 7 empty_planning [] (text "u.md") (from_record indexed) known
      stale

stale_move_refused_example :
    plan_move setting 7 [] (some (text "cuda")) runbook empty_planning
    ≡ err (revision_conflict 7 [] first_text)
unfolding from_record
stale_move_refused_example =
    stale_move_refused setting 7 empty_planning [] (from_record indexed) known stale (λ e. cc)
      (λ e. cc)

abbrev building : Result ApplyError (List PlannedMutation)
building = build_plan crates files (claimed sequence_operations) contents policy 100

abbrev plan_of : Result ApplyError (List PlannedMutation) → List PlannedMutation
plan_of (ok plan) = plan
plan_of (err e) = []

builds : building ≡ ok (plan_of building)
unfolding plan_update plan_create plan_move plan_archive plan_attachment plan_operation
    plan_operations build_plan check_update markdown_of resolve_document from_record lookup get
    require_revision list_beq require_mutable require_movable require_accessible
    require_classification option_beq payload_byte_length find_payload reserve_planned_bytes
    checked_add read_payload read_canonical_markdown decode_payload_metadata
    decode_document_metadata extract_front_matter front_matter_offset split_inclusive is_delimiter
    strip_opening strip_prefix is_utf8 validate_common validate_text validate_optional_text
    validate_tags trim create_document_path archive_document_path bundle_path is_occupied reserve
    move_path archived_markdown archived_size markdown_body opening_length scan_body metadata_beq
    time_beq parent dated_name
builds = refl

build_plan-bounded_example :
    (written (plan_of building) ≤ 100)
    × (is_before (operation_time_of (claimed sequence_operations)) noon ≡ false)
build_plan-bounded_example =
    build_plan-bounded crates files (claimed sequence_operations) contents policy 100
      (plan_of building) builds
