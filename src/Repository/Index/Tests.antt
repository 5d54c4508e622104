-- ===== src/Repository/Index/Tests.antt =====
-- The paths and the records of the sample documents.
use agent_knowledge.Prelude.{
  ◌≡◌, refl, true, false, some, ok, text, bytes, length, list_beq, option_beq, is_utf8,
  strip_prefix, trim,
}
use agent_knowledge.Core.Path.{parse_project_id}
use agent_knowledge.Core.Document.{
  runbook, default_limits, validate, validate_common, validate_text, validate_optional_text,
  validate_tags,
}
use agent_knowledge.Core.Document.Tests.{solver_notes}
use agent_knowledge.Core.Markdown.{
  decode_document_metadata, extract_front_matter, front_matter_offset, split_inclusive,
  is_delimiter, strip_opening,
}
use agent_knowledge.Repository.Layout.{archive_document_path}
use agent_knowledge.Repository.Index.{from_markdown}
use agent_knowledge.Repository.Index.Paths.{IsProject}
use agent_knowledge.Repository.Index.Records.{
  from_markdown-create_document_path, from_markdown-archive_document_path,
}
use agent_knowledge.Repository.Apply.Plan.Sample.{
  crates, policy, first_text, archived_text, archived_notes, notes_path,
}

cuda_IsProject : IsProject (some (text "cuda"))
unfolding parse_project_id bytes
cuda_IsProject = refl

decodes :
    (decode_document_metadata crates.decode_yaml first_text 100 ≡ ok solver_notes)
    × (decode_document_metadata crates.decode_yaml archived_text 100 ≡ ok archived_notes)
unfolding decode_document_metadata extract_front_matter front_matter_offset split_inclusive
    is_delimiter strip_opening strip_prefix is_utf8 list_beq
decodes = (refl, refl)

valid :
    (validate solver_notes runbook default_limits ≡ ok tt)
    × (validate archived_notes runbook default_limits ≡ ok tt)
unfolding validate validate_common validate_text validate_optional_text validate_tags trim list_beq
    option_beq
valid = (refl, refl)

from_markdown-create_document_path_example :
    from_markdown crates notes_path first_text policy
    ≡ ok (record {
      relative_path = notes_path;
      location = record { document_type = runbook; project = some (text "cuda"); archived = false };
      metadata = solver_notes;
      revision = first_text;
      byte_length = length first_text;
    })
from_markdown-create_document_path_example =
    from_markdown-create_document_path crates policy first_text solver_notes (some (text "cuda"))
      runbook cuda_IsProject decodes.0 valid.0 (λ e. cc)

from_markdown-archive_document_path_example :
    from_markdown crates
      (archive_document_path (some (text "cuda")) runbook notes_path (text "A"))
      archived_text
      policy
    ≡ ok (record {
      relative_path = archive_document_path (some (text "cuda")) runbook notes_path (text "A");
      location = record { document_type = runbook; project = some (text "cuda"); archived = true };
      metadata = archived_notes;
      revision = archived_text;
      byte_length = length archived_text;
    })
from_markdown-archive_document_path_example =
    from_markdown-archive_document_path crates policy archived_text archived_notes
      (some (text "cuda")) runbook cuda_IsProject (λ e. cc) decodes.1 valid.1 refl
