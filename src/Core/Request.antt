-- ===== src/Core/Request.antt =====
-- crates/core/src/request.rs: the change request, its operations and its validation. The decoding of
-- the JSON form is in `Wire`.
pub mod Wire
pub mod Validation
mod Tests
use agent_knowledge.Prelude.{
  ℕ, Bool, not, Option, none, some, List, [], ◌∷◌, ltb, ◌==◌, nat_eq, if◌then◌else◌, length, any,
  is_empty, contains, Result, ok, err, ◌>>=◌, ◌>>◌, reject, Text, text, is_control, trim,
}
use agent_knowledge.Core.Time.{OffsetDateTime}
use agent_knowledge.Core.Id.{DocumentId, RequestId, SessionId}
use agent_knowledge.Core.Revision.{Revision}
use agent_knowledge.Core.Path.{ProjectId, PayloadPath, AttachmentName}
use agent_knowledge.Core.Document.{DocumentType, log, type_eq, is_none}

abbrev pub current_protocol_version : ℕ
current_protocol_version = 1

pub data Operation : Type 0 where
  create_document : DocumentId → PayloadPath → Operation
  update_document : DocumentId → Revision → PayloadPath → Operation
  move_document : DocumentId → Revision → Option ProjectId → DocumentType → Operation
  archive_document : DocumentId → Revision → Operation
  add_attachment : DocumentId → PayloadPath → AttachmentName → Operation

pub record ChangeRequest : Type 0 where
  pub protocol_version : ℕ
  pub request_id : RequestId
  pub title : Text
  pub project : Option ProjectId
  pub document_type : DocumentType
  pub node : Option Text
  pub agent : Option Text
  pub session : Option SessionId
  pub created_at : OffsetDateTime
  pub operations : List Operation

pub record RequestLimits : Type 0 where
  pub maximum_title_characters : ℕ
  pub maximum_operations : ℕ

abbrev pub default_limits : RequestLimits
default_limits = record { maximum_title_characters = 200; maximum_operations = 100 }

pub data RequestValidationError : Type 0 where
  unsupported_protocol_version : ℕ → RequestValidationError
  empty_title title_contains_control_character : RequestValidationError
  title_too_long : ℕ → ℕ → RequestValidationError
  empty_operations : RequestValidationError
  too_many_operations : ℕ → ℕ → RequestValidationError
  missing_log_metadata invalid_metadata : Text → RequestValidationError
  duplicate_created_document : DocumentId → RequestValidationError

abbrev pub Checked : Type 0
Checked = Result RequestValidationError (Unit {0})

-- The control characters are looked for in the trimmed title, the length is that of the whole one.
unfoldable pub validate_title : Text → ℕ → Checked
validate_title title maximum = do
  reject (is_empty (trim title)) empty_title
  reject (any is_control (trim title)) title_contains_control_character
  reject (ltb maximum (length title)) (title_too_long maximum (length title))

unfoldable pub validate_operation_count : List Operation → ℕ → Checked
validate_operation_count operations maximum = do
  reject (is_empty operations) empty_operations
  reject (ltb maximum (length operations)) (too_many_operations maximum (length operations))

unfoldable pub validate_optional_metadata : Text → Option Text → Checked
validate_optional_metadata field none = ok tt
validate_optional_metadata field (some value) = do
  reject (is_empty (trim value)) (invalid_metadata field)
  reject (any is_control value) (invalid_metadata field)

unfoldable pub validate_log : Option Text → Option Text → Option SessionId → Checked
validate_log node agent session = do
  reject (is_none node) (missing_log_metadata (text "node"))
  reject (is_none agent) (missing_log_metadata (text "agent"))
  reject (is_none session) (missing_log_metadata (text "session"))

-- The loop over the operations; `created` is the hash set.
unfoldable pub validate_created : List DocumentId → List Operation → Checked
validate_created created [] = ok tt
validate_created created (create_document id content ∷ ops) = do
  reject (contains id created) (duplicate_created_document id)
  validate_created (id ∷ created) ops
validate_created created (_ ∷ ops) = validate_created created ops

unfoldable pub validate : ChangeRequest → RequestLimits → Checked
validate r limits = do
  reject (not (r.protocol_version == current_protocol_version))
      (unsupported_protocol_version r.protocol_version)
  validate_title r.title limits.maximum_title_characters
  validate_operation_count r.operations limits.maximum_operations
  validate_optional_metadata (text "node") r.node
  validate_optional_metadata (text "agent") r.agent
  if r.document_type == log then validate_log r.node r.agent r.session else ok tt
  validate_created [] r.operations
