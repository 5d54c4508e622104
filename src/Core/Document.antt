-- ===== src/Core/Document.antt =====
-- crates/core/src/document.rs, with the two enums of crates/core/src/error_code.rs and
-- crates/core/src/request.rs that documents use: the metadata of a document and its validation.
pub mod Blank
pub mod Validation
pub mod Tests
use agent_knowledge.Prelude.{
  ℕ, zero, suc, ◌≡◌, ◌↔◌, Bool, true, false, not, Option, none, some, List, [], ◌∷◌, arith, ltb,
  ◌==◌, PartialEq, nat_eq, list_eq, option_eq, if◌then◌else◌, length, any, is_empty, contains,
  Result, ok, err, ◌>>=◌, ◌>>◌, reject, Text, text, is_control, trim,
}
use agent_knowledge.Core.Time.{OffsetDateTime, is_before}
use agent_knowledge.Core.Id.{DocumentId, RequestId, SessionId}

pub data DocumentStatus : Type 0 where
  active completed deprecated archived : DocumentStatus

abbrev pub status_number : DocumentStatus → ℕ
status_number active = 0
status_number completed = 1
status_number deprecated = 2
status_number archived = 3

pub status_iff : (a b : DocumentStatus) → ((status_number a == status_number b) ≡ true) ↔ (a ≡ b)
status_iff a b = ground arith

instance abbrev pub status_eq : PartialEq DocumentStatus
status_eq = record { eq = λ a b. status_number a == status_number b; eq_iff = status_iff }

pub data DocumentType : Type 0 where
  index log experiment decision runbook reference : DocumentType

abbrev pub type_number : DocumentType → ℕ
type_number index = 0
type_number log = 1
type_number experiment = 2
type_number decision = 3
type_number runbook = 4
type_number reference = 5

pub type_iff : (a b : DocumentType) → ((type_number a == type_number b) ≡ true) ↔ (a ≡ b)
type_iff a b = ground arith

instance abbrev pub type_eq : PartialEq DocumentType
type_eq = record { eq = λ a b. type_number a == type_number b; eq_iff = type_iff }

abbrev pub current_document_schema_version : ℕ
current_document_schema_version = 1

pub record DocumentMetadata : Type 0 where
  pub schema_version : ℕ
  pub document_id : DocumentId
  pub title : Text
  pub created : OffsetDateTime
  pub updated : Option OffsetDateTime
  pub node : Option Text
  pub agent : Option Text
  pub session : Option SessionId
  pub request_id : RequestId
  pub tags : List Text
  pub status : DocumentStatus
  pub superseded_by : Option DocumentId

pub record DocumentLimits : Type 0 where
  pub maximum_title_characters : ℕ
  pub maximum_metadata_characters : ℕ
  pub maximum_tags : ℕ
  pub maximum_tag_characters : ℕ

abbrev pub default_limits : DocumentLimits
default_limits = record {
  maximum_title_characters = 200;
  maximum_metadata_characters = 200;
  maximum_tags = 64;
  maximum_tag_characters = 64;
}

pub data DocumentValidationError : Type 0 where
  unsupported_schema_version : ℕ → DocumentValidationError
  empty_text control_character : Text → DocumentValidationError
  text_too_long : Text → ℕ → ℕ → DocumentValidationError
  updated_before_created self_superseded : DocumentValidationError
  too_many_tags : ℕ → ℕ → DocumentValidationError
  duplicate_tag missing_log_metadata : Text → DocumentValidationError

abbrev pub Checked : Type 0
Checked = Result DocumentValidationError (Unit {0})

-- `chars().count()` is the length of the list of characters.
unfoldable pub validate_text : Text → Text → ℕ → Checked
validate_text field value maximum = do
  reject (is_empty (trim value)) (empty_text field)
  reject (any is_control value) (control_character field)
  reject (ltb maximum (length value)) (text_too_long field maximum (length value))

unfoldable pub validate_optional_text : Text → Option Text → ℕ → Checked
unfolding validate_text
validate_optional_text field none maximum = ok tt
validate_optional_text field (some value) maximum = validate_text field value maximum

-- `updated < self.created`, where there is an update time.
abbrev pub updated_before : Option OffsetDateTime → OffsetDateTime → Bool
updated_before none created = false
updated_before (some updated) created = is_before updated created

-- The loop over the tags; `seen` is the hash set.
unfoldable pub validate_tags : ℕ → List Text → List Text → Checked
unfolding validate_text
validate_tags maximum seen [] = ok tt
validate_tags maximum seen (tag ∷ tags) = do
  validate_text (text "tag") tag maximum
  reject (contains tag seen) (duplicate_tag tag)
  validate_tags maximum (tag ∷ seen) tags

unfoldable pub validate_common : DocumentMetadata → DocumentLimits → Checked
validate_common m limits = do
  reject (not (m.schema_version == current_document_schema_version))
      (unsupported_schema_version m.schema_version)
  validate_text (text "title") m.title limits.maximum_title_characters
  validate_optional_text (text "node") m.node limits.maximum_metadata_characters
  validate_optional_text (text "agent") m.agent limits.maximum_metadata_characters
  reject (updated_before m.updated m.created) updated_before_created
  reject (m.superseded_by == some m.document_id) self_superseded
  reject (ltb limits.maximum_tags (length m.tags))
      (too_many_tags limits.maximum_tags (length m.tags))
  validate_tags limits.maximum_tag_characters [] m.tags

abbrev pub is_none {ℓ} : {A : Type ℓ} → Option A → Bool
is_none none = true
is_none (some a) = false

-- The three fields that a log requires.
unfoldable pub validate_log : Option Text → Option Text → Option SessionId → Checked
validate_log node agent session = do
  reject (is_none node) (missing_log_metadata (text "node"))
  reject (is_none agent) (missing_log_metadata (text "agent"))
  reject (is_none session) (missing_log_metadata (text "session"))

unfoldable pub validate : DocumentMetadata → DocumentType → DocumentLimits → Checked
validate m document_type limits = do
  validate_common m limits
  if document_type == log then validate_log m.node m.agent m.session else ok tt
