-- ===== src/Core/Request/Validation.antt =====
-- What the validation of a change request accepts.
use agent_knowledge.Prelude.{
  ℕ, ◌≤◌, ◌<◌, ◌≡◌, ◌↔◌, false, Option, none, some, List, [], ◌∷◌, arith, ◌==◌, nat_eq, list_eq,
  length, all, any, Distinct, Apart, Apart-nil, Apart-cons, contains-eq-false_iff, ok, Text,
  is_control, is_whitespace, trim, option_eq, if◌then◌else◌, text,
}
use agent_knowledge.Core.Id.{DocumentId, SessionId}
use agent_knowledge.Core.Document.{DocumentType, log, type_eq}
use agent_knowledge.Core.Document.Blank.{is_empty-trim}
use agent_knowledge.Core.Document.Validation.{IsPresent, HasLogMetadata}
use agent_knowledge.Core.Request.{
  Operation, create_document, ChangeRequest, RequestLimits, validate_title,
  validate_operation_count, validate_optional_metadata, validate_log, validate_created, validate,
}

pub record IsTitle (maximum : ℕ) (v : Text) : Type 0 where
  pub not_blank : all is_whitespace v ≡ false
  pub printable : any is_control (trim v) ≡ false
  pub short : length v ≤ maximum

validate_title_iff :
    (v : Text) (maximum : ℕ) → (validate_title v maximum ≡ ok tt) ↔ IsTitle maximum v
unfolding validate_title
validate_title_iff v maximum = ground (arith, is_empty-trim v)

validate_operation_count_iff :
    (ops : List Operation) (maximum : ℕ)
    → (validate_operation_count ops maximum ≡ ok tt) ↔ ((0 < length ops) × (length ops ≤ maximum))
unfolding validate_operation_count
validate_operation_count_iff [] maximum = ground arith
validate_operation_count_iff (x ∷ ops) maximum = ground arith

abbrev pub IsMetadata : Option Text → Type 0
IsMetadata none = Unit
IsMetadata (some v) = (all is_whitespace v ≡ false) × (any is_control v ≡ false)

validate_optional_metadata_iff :
    (field : Text) (v : Option Text) → (validate_optional_metadata field v ≡ ok tt) ↔ IsMetadata v
unfolding validate_optional_metadata
validate_optional_metadata_iff field none = ground arith
validate_optional_metadata_iff field (some v) = ground (arith, is_empty-trim v)

validate_log_iff :
    (n a : Option Text) (s : Option SessionId)
    → (validate_log n a s ≡ ok tt) ↔ (IsPresent n × IsPresent a × IsPresent s)
unfolding validate_log
validate_log_iff n a s = ground arith

log_metadata_iff :
    (t : DocumentType) (n a : Option Text) (s : Option SessionId)
    → ((if t == log then validate_log n a s else ok tt) ≡ ok tt) ↔ HasLogMetadata t n a s
log_metadata_iff log n a s = validate_log_iff n a s
log_metadata_iff _ n a s = ground arith

-- The identifiers of the documents that the operations create.
abbrev pub created_ids : List Operation → List DocumentId
created_ids [] = []
created_ids (create_document id content ∷ ops) = id ∷ created_ids ops
created_ids (_ ∷ ops) = created_ids ops

validate_created_iff :
    (seen : List DocumentId) (ops : List Operation)
    → (validate_created seen ops ≡ ok tt)
      ↔ (Distinct (created_ids ops) × Apart seen (created_ids ops))
unfolding validate_created
validate_created_iff seen [] = ground arith
validate_created_iff seen (create_document id content ∷ ops) = ground (
  arith,
  contains-eq-false_iff id seen,
  validate_created_iff (id ∷ seen) ops,
  Apart-cons id seen (created_ids ops),
)
validate_created_iff seen (_ ∷ ops) = validate_created_iff seen ops

pub record IsRequest (limits : RequestLimits) (r : ChangeRequest) : Type 0 where
  pub version : r.protocol_version ≡ 1
  pub title : IsTitle limits.maximum_title_characters r.title
  pub nonempty : 0 < length r.operations
  pub few_operations : length r.operations ≤ limits.maximum_operations
  pub node : IsMetadata r.node
  pub agent : IsMetadata r.agent
  pub log_metadata : HasLogMetadata r.document_type r.node r.agent r.session
  pub distinct_created : Distinct (created_ids r.operations)

-- A request is accepted exactly when it satisfies `IsRequest`: the one protocol version; a title that
-- is not blank, not too long, and free of control characters between its outer white space; at
-- least one operation and no more than the limit; a node and an agent that are absent or not blank
-- and free of control characters; node, agent and session all present in a log request; and no
-- document created twice.
pub validate-IsRequest_iff :
    (r : ChangeRequest) (limits : RequestLimits) → (validate r limits ≡ ok tt) ↔ IsRequest limits r
unfolding validate
validate-IsRequest_iff r limits = ground (
  arith,
  validate_title_iff r.title limits.maximum_title_characters,
  validate_operation_count_iff r.operations limits.maximum_operations,
  validate_optional_metadata_iff (text "node") r.node,
  validate_optional_metadata_iff (text "agent") r.agent,
  log_metadata_iff r.document_type r.node r.agent r.session,
  validate_created_iff [] r.operations,
  Apart-nil (created_ids r.operations),
)
