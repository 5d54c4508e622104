-- ===== src/Repository/Apply.antt =====
-- crates/repository/src/apply.rs: what the planning of a request works on, and its guards. The plan
-- itself is in `Plan`, the generated text of an archived document in `Archive`.
pub mod Occupancy
pub mod Archive
pub mod Guards
pub mod Plan
mod Tests
use agent_knowledge.Prelude.{
  ℕ, ◌+◌, ◌-◌, ◌^◌, Bool, true, false, not, ◌||◌, Option, none, some, List, [], ◌∷◌, ◌==◌, nat_eq,
  list_eq, option_eq, ltb, leb, if◌then◌else◌, length, take, lookup, Result, ok, err, ◌>>=◌, ◌>>◌,
  reject, ok_or, map_err, Bytes, Text, text,
}
use agent_knowledge.Core.Path.{ProjectId, PayloadPath}
use agent_knowledge.Core.Time.{OffsetDateTime}
use agent_knowledge.Core.Id.{DocumentId}
use agent_knowledge.Core.Revision.{Revision}
use agent_knowledge.Core.Request.{ChangeRequest}
use agent_knowledge.Core.Document.{
  DocumentType, index, log, type_eq, DocumentStatus, active, status_eq, DocumentMetadata,
  DocumentValidationError, validate_common,
}
use agent_knowledge.Core.Markdown.{DocumentParseError, decode_document_metadata}
use agent_knowledge.Repository.Layout.{RelativePath}
use agent_knowledge.Repository.Index.{Crates, ContentPolicy, ContentIndex, DocumentRecord, get}

-- The entries of crates/queue/src/package.rs that the planning reads.
pub record PayloadMetadata : Type 0 where
  pub path : PayloadPath
  pub byte_length : ℕ
  pub revision : Revision

pub record ValidatedPackage : Type 0 where
  pub request : ChangeRequest
  pub accepted_at : Option OffsetDateTime
  pub payload : List PayloadMetadata

-- The answers of the file system while a plan is made: `symlink_metadata` below the content root, the
-- files of the package's payload and those of the content tree. A file that cannot be read is `none`.
pub data Stat : Type 0 where
  present missing failed : Stat

pub record Files : Type 0 where
  pub stat : RelativePath → Stat
  pub payload : PayloadPath → Option Bytes
  pub content : RelativePath → Option Bytes

pub record VirtualDocument : Type 0 where
  pub relative_path : RelativePath
  pub canonical_path : RelativePath
  pub document_type : DocumentType
  pub project : Option ProjectId
  pub created : OffsetDateTime
  pub updated : Option OffsetDateTime
  pub archived : Bool
  pub status : DocumentStatus
  pub revision : Revision
  pub markdown : Option Bytes

pub data PlannedMutation : Type 0 where
  write_new replace : RelativePath → Bytes → PlannedMutation
  move : RelativePath → RelativePath → PlannedMutation

-- The errors of the planning; those of the index, of the package's validation and of the execution
-- are left out with their causes.
pub data ApplyError : Type 0 where
  request_created_after_acceptance : ApplyError
  document_not_found document_id_conflict : DocumentId → ApplyError
  revision_conflict : DocumentId → Revision → Revision → ApplyError
  operation_forbidden : DocumentId → Text → ApplyError
  destination_exists : RelativePath → ApplyError
  planning_bytes_exceeded : ℕ → ApplyError
  invalid_payload_document : PayloadPath → DocumentParseError → ApplyError
  invalid_payload_metadata : PayloadPath → DocumentValidationError → ApplyError
  generated_document : DocumentParseError → ApplyError
  claim_package_changed content_changed_during_apply : ApplyError
  metadata_encoding : ℕ → ApplyError
  io : ApplyError

abbrev pub Checked : Type 0
Checked = Result ApplyError (Unit {0})

abbrev pub Documents : Type 0
Documents = List (DocumentId × VirtualDocument)

-- 64-bit words.
abbrev pub word_limit : ℕ
word_limit = 2 ^ 64

unfoldable pub checked_add : ℕ → ℕ → Option ℕ
checked_add a b = if ltb (a + b) word_limit then some (a + b) else none

unfoldable pub from_record : DocumentRecord → VirtualDocument
from_record r = record {
  relative_path = r.relative_path;
  canonical_path = r.relative_path;
  document_type = r.location.document_type;
  project = r.location.project;
  created = r.metadata.created;
  updated = r.metadata.updated;
  archived = r.location.archived;
  status = r.metadata.status;
  revision = r.revision;
  markdown = none;
}

-- The document with what has been planned for it, and the map with its entry.
unfoldable pub resolve_document :
    Documents → ContentIndex → DocumentId → Result ApplyError (VirtualDocument × Documents)
unfolding from_record
resolve_document documents contents id = elim (lookup id documents) [
  | some document ↦ ok (document, documents)
  | none ↦ ok_or (get contents id) (document_not_found id) >>= λ r.
      ok (from_record r, (id, from_record r) ∷ documents)
]

unfoldable pub reserve_planned_bytes : ℕ → ℕ → ℕ → Result ApplyError ℕ
unfolding checked_add
reserve_planned_bytes total additional maximum = do
  next ← ok_or (checked_add total additional) (planning_bytes_exceeded maximum)
  reject (ltb maximum next) (planning_bytes_exceeded maximum)
  ok next

unfoldable pub require_revision : VirtualDocument → DocumentId → Revision → Checked
require_revision d id expected =
    reject (not (d.revision == expected)) (revision_conflict id expected d.revision)

unfoldable pub require_classification :
    VirtualDocument → DocumentId → Option ProjectId → DocumentType → Checked
require_classification d id request_project request_type =
    reject (not (d.document_type == request_type) || not (d.project == request_project))
      (operation_forbidden id (text "request classification differs from canonical content"))

unfoldable pub require_accessible :
    VirtualDocument → DocumentId → Option ProjectId → DocumentType → Checked
unfolding require_classification
require_accessible d id request_project request_type = do
  reject d.archived (operation_forbidden id (text "archived documents cannot be modified"))
  require_classification d id request_project request_type

unfoldable pub require_mutable :
    VirtualDocument → DocumentId → Option ProjectId → DocumentType → Checked
unfolding require_accessible
require_mutable d id request_project request_type = do
  require_accessible d id request_project request_type
  reject (d.document_type == log) (operation_forbidden id (text "logs are append-only"))
  reject (not (d.status == active))
      (operation_forbidden id (text "only active documents are mutable"))

unfoldable pub require_movable : VirtualDocument → DocumentId → Checked
require_movable d id = do
  reject d.archived (operation_forbidden id (text "document is already archived"))
  reject (d.document_type == log || d.document_type == index)
      (operation_forbidden id (text "logs and index documents cannot be moved or archived"))
  reject (not (d.status == active))
      (operation_forbidden id (text "only active documents can be moved or archived"))

unfoldable pub decode_payload_metadata :
    Crates → ContentPolicy → Bytes → PayloadPath → Result ApplyError DocumentMetadata
decode_payload_metadata crates policy bytes path = do
  m ←
      map_err (invalid_payload_document path)
        (decode_document_metadata crates.decode_yaml bytes policy.maximum_front_matter_bytes)
  map_err (invalid_payload_metadata path) (validate_common m policy.document)
  ok m

unfoldable pub find_payload : List PayloadMetadata → PayloadPath → Option PayloadMetadata
find_payload [] path = none
find_payload (m ∷ ms) path =
    let rest = find_payload ms path in if m.path == path then some m else rest

unfoldable pub payload_byte_length : ValidatedPackage → PayloadPath → Result ApplyError ℕ
unfolding find_payload
payload_byte_length claimed path =
    ok_or (find_payload claimed.payload path) claim_package_changed >>= λ m. ok m.byte_length

-- `take(byte_length.saturating_add(1))`: the bound is a word at most.
abbrev pub read_bound : ℕ → ℕ
read_bound n = if ltb (n + 1) word_limit then n + 1 else word_limit - 1

unfoldable pub read_payload :
    Crates → Files → ValidatedPackage → PayloadPath → Result ApplyError Bytes
unfolding find_payload
read_payload crates files claimed path = do
  m ← ok_or (find_payload claimed.payload path) claim_package_changed
  file ← ok_or (files.payload path) io
  reject
      (not (length (take (read_bound m.byte_length) file) == m.byte_length)
        || not (crates.sha256 (take (read_bound m.byte_length) file) == m.revision))
      claim_package_changed
  ok (take (read_bound m.byte_length) file)

unfoldable pub read_canonical_markdown :
    Crates → Files → RelativePath → ℕ → Revision → Result ApplyError Bytes
read_canonical_markdown crates files path maximum expected = do
  file ← ok_or (files.content path) io
  reject
      (ltb maximum (length (take (read_bound maximum) file))
        || not (crates.sha256 (take (read_bound maximum) file) == expected))
      content_changed_during_apply
  ok (take (read_bound maximum) file)
