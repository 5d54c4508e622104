-- ===== src/Core/Document/Tests.antt =====
-- The validation of the metadata of one document.
use agent_knowledge.Prelude.{
  ◌≡◌, refl, ◌↔◌, none, some, [], ◌∷◌, ok, err, text, trim, list_beq, option_beq,
}
use agent_knowledge.Core.Time.{OffsetDateTime}
use agent_knowledge.Core.Document.{
  DocumentMetadata, active, log, runbook, default_limits, missing_log_metadata, validate,
  validate_text, validate_common, validate_log, validate_optional_text, validate_tags,
}
use agent_knowledge.Core.Document.Validation.{HasLogMetadata, IsCommon, validate_metadata_iff}

abbrev pub noon : OffsetDateTime
noon = record { instant = 1000; year = 2026; month = 8; day = 1; hour = 12; minute = 0; second = 0 }

abbrev pub solver_notes : DocumentMetadata
solver_notes = record {
  schema_version = 1;
  document_id = 7;
  title = text "Solver";
  created = noon;
  updated = none;
  node = some (text "node-a");
  agent = none;
  session = none;
  request_id = 8;
  tags = text "cuda" ∷ (text "gpu" ∷ []);
  status = active;
  superseded_by = none;
}

accepts_runbook : validate solver_notes runbook default_limits ≡ ok tt
unfolding validate validate_common validate_text validate_optional_text validate_tags trim list_beq
    option_beq
accepts_runbook = refl

rejects_log : validate solver_notes log default_limits ≡ err (missing_log_metadata (text "agent"))
unfolding validate validate_common validate_text validate_optional_text validate_tags validate_log
    trim list_beq option_beq
rejects_log = refl

validate_metadata_iff_example : (validate solver_notes log default_limits ≡ ok tt) ↔ (
    IsCommon default_limits solver_notes
    × HasLogMetadata log solver_notes.node solver_notes.agent solver_notes.session)
validate_metadata_iff_example = validate_metadata_iff solver_notes log default_limits
