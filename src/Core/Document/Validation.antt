-- ===== src/Core/Document/Validation.antt =====
-- What the validation of document metadata accepts.
use agent_knowledge.Prelude.{
  ℕ, ◌≤◌, ◌≡◌, refl, ◌≢◌, ◌↔◌, false, Option, none, some, List, [], ◌∷◌, arith, ==_iff, nat_eq,
  list_eq, length, all, any, All, Distinct, Apart, Apart-nil, Apart-cons, contains-eq-false_iff, ok,
  Text, is_control, is_whitespace, option_eq, text,
}
use agent_knowledge.Core.Time.{OffsetDateTime}
use agent_knowledge.Core.Id.{SessionId}
use agent_knowledge.Core.Document.{
  DocumentMetadata, DocumentType, DocumentLimits, log, validate_text, validate_optional_text,
  validate_tags, validate_common, validate_log, validate, updated_before, type_eq,
}
use agent_knowledge.Core.Document.Blank.{is_empty-trim}

-- A text that is not blank, at most `maximum` characters long and without control characters.
pub record IsText (maximum : ℕ) (v : Text) : Type 0 where
  pub not_blank : all is_whitespace v ≡ false
  pub printable : any is_control v ≡ false
  pub short : length v ≤ maximum

pub validate_text_iff :
    (field v : Text) (maximum : ℕ) → (validate_text field v maximum ≡ ok tt) ↔ IsText maximum v
unfolding validate_text
validate_text_iff field v maximum = ground (arith, is_empty-trim v)

abbrev pub IsOptionalText : ℕ → Option Text → Type 0
IsOptionalText maximum none = Unit
IsOptionalText maximum (some v) = IsText maximum v

validate_optional_text_iff :
    (field : Text) (v : Option Text) (maximum : ℕ)
    → (validate_optional_text field v maximum ≡ ok tt) ↔ IsOptionalText maximum v
unfolding validate_optional_text
validate_optional_text_iff field none maximum = (λ _. tt, λ _. refl)
validate_optional_text_iff field (some v) maximum = validate_text_iff field v maximum

validate_tags_iff :
    (maximum : ℕ) (seen tags : List Text)
    → (validate_tags maximum seen tags ≡ ok tt)
      ↔ (All (IsText maximum) tags × Distinct tags × Apart seen tags)
unfolding validate_tags
validate_tags_iff maximum seen [] = (λ _. (tt, tt, tt), λ _. refl)
validate_tags_iff maximum seen (tag ∷ tags) = ground (
  arith,
  validate_text_iff (text "tag") tag maximum,
  contains-eq-false_iff tag seen,
  validate_tags_iff maximum (tag ∷ seen) tags,
  Apart-cons tag seen tags,
)

abbrev NotBefore : Option OffsetDateTime → OffsetDateTime → Type 0
NotBefore none created = Unit
NotBefore (some updated) created = created.instant ≤ updated.instant

updated_before_iff :
    (u : Option OffsetDateTime) (c : OffsetDateTime) → (updated_before u c ≡ false) ↔ NotBefore u c
updated_before_iff none c = ground arith
updated_before_iff (some u) c = ground arith

pub record IsCommon (limits : DocumentLimits) (m : DocumentMetadata) : Type 0 where
  pub version : m.schema_version ≡ 1
  pub title : IsText limits.maximum_title_characters m.title
  pub node : IsOptionalText limits.maximum_metadata_characters m.node
  pub agent : IsOptionalText limits.maximum_metadata_characters m.agent
  pub ordered : NotBefore m.updated m.created
  pub not_self : m.superseded_by ≢ some m.document_id
  pub few_tags : length m.tags ≤ limits.maximum_tags
  pub tags : All (IsText limits.maximum_tag_characters) m.tags
  pub distinct_tags : Distinct m.tags

validate_common_iff :
    (m : DocumentMetadata) (limits : DocumentLimits)
    → (validate_common m limits ≡ ok tt) ↔ IsCommon limits m
unfolding validate_common
validate_common_iff m limits = ground (
  arith,
  validate_text_iff (text "title") m.title limits.maximum_title_characters,
  validate_optional_text_iff (text "node") m.node limits.maximum_metadata_characters,
  validate_optional_text_iff (text "agent") m.agent limits.maximum_metadata_characters,
  updated_before_iff m.updated m.created,
  ==_iff m.superseded_by (some m.document_id),
  validate_tags_iff limits.maximum_tag_characters [] m.tags,
  Apart-nil m.tags,
)

abbrev pub IsPresent {ℓ} : {A : Type ℓ} → Option A → Type 0
IsPresent none = ⊥
IsPresent (some a) = Unit

-- A log names its node, its agent and its session.
abbrev pub HasLogMetadata : DocumentType → Option Text → Option Text → Option SessionId → Type 0
HasLogMetadata log n a s = IsPresent n × IsPresent a × IsPresent s
HasLogMetadata _ n a s = Unit

validate_log_iff :
    (n a : Option Text) (s : Option SessionId)
    → (validate_log n a s ≡ ok tt) ↔ (IsPresent n × IsPresent a × IsPresent s)
unfolding validate_log
validate_log_iff n a s = ground arith

-- Metadata of a document is accepted exactly when it satisfies the common rules (`IsCommon`: the
-- one schema version, texts that are not blank, not too long and free of control characters, an
-- update not before the creation, no document that supersedes itself, and tags that are few and
-- distinct) and, for a log, names its node, its agent and its session.
pub validate_metadata_iff :
    (m : DocumentMetadata) (t : DocumentType) (limits : DocumentLimits)
    → (validate m t limits ≡ ok tt)
      ↔ (IsCommon limits m × HasLogMetadata t m.node m.agent m.session)
unfolding validate
validate_metadata_iff m log limits =
    ground (arith, validate_common_iff m limits, validate_log_iff m.node m.agent m.session)
validate_metadata_iff m _ limits = ground (arith, validate_common_iff m limits)
