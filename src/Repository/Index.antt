-- ===== src/Repository/Index.antt =====
-- crates/repository/src/index.rs: what the index of the content tree holds of one document, how it
-- classifies the document by its path, and the lookup of a document with its revision. The walk of the
-- tree (`build_validated`) is not modelled: an index is its map of documents.
pub mod Paths
pub mod Records
mod Tests
use agent_knowledge.Prelude.{
  ℕ, Bool, true, false, not, Option, none, some, List, [], ◌∷◌, ◌++◌, ◌==◌, PartialEq, nat_eq,
  list_eq, ltb, if◌then◌else◌, length, is_empty, lookup, Result, ok, err, ◌>>=◌, ◌>>◌, reject,
  ok_or, map_err, Bytes, Text, text, ◌&&◌,
}
use agent_knowledge.Core.Path.{ProjectId, parse_project_id}
use agent_knowledge.Core.Time.{OffsetDateTime}
use agent_knowledge.Core.Id.{DocumentId}
use agent_knowledge.Core.Revision.{Revision}
use agent_knowledge.Core.Document.{
  DocumentType, index, log, type_eq, DocumentMetadata, DocumentLimits, DocumentValidationError,
  archived, status_eq, validate,
}
use agent_knowledge.Core.Markdown.{DocumentParseError, decode_document_metadata}
use agent_knowledge.Repository.Layout.{
  RelativePath, index_file, DocumentLocation, LayoutError, invalid_document_path, parse_category,
  category_name, index_path, category_path, archive_category_path, day_path, dated_name, timed_name,
}

-- What the crates sha2, serde_saphyr (with the options of the decoder, which hold the limit) and ulid
-- compute.
pub record Crates : Type 0 where
  pub sha256 : Bytes → Revision
  pub decode_yaml : ℕ → Bytes → Result ℕ DocumentMetadata
  pub encode_yaml : DocumentMetadata → Result ℕ Bytes
  pub ulid_text : DocumentId → Text

-- `maximum_entry_count`, `maximum_total_markdown_bytes` and `scan_deadline` bound the walk of the
-- tree, and are left out with it.
pub record ContentPolicy : Type 0 where
  pub maximum_markdown_bytes : ℕ
  pub maximum_front_matter_bytes : ℕ
  pub document : DocumentLimits

-- A component that is `index.md` at the end: the directory before it.
unfoldable pub strip_index : RelativePath → Option RelativePath
strip_index [] = none
strip_index (p ∷ []) = if p == index_file then some [] else none
strip_index (p ∷ (q ∷ ps)) = elim (strip_index (q ∷ ps)) [ none ↦ none | some dir ↦ some (p ∷ dir) ]

abbrev pub located :
    RelativePath → Text → Option ProjectId → Bool → Result LayoutError DocumentLocation
located path category project is_archived = do
  document_type ← ok_or (parse_category category) (invalid_document_path path)
  ok (record { document_type = document_type; project = project; archived = is_archived })

abbrev pub located_in_project :
    RelativePath → Text → Text → Bool → Result LayoutError DocumentLocation
located_in_project path category project is_archived = do
  document_type ← ok_or (parse_category category) (invalid_document_path path)
  project' ← map_err (λ _. invalid_document_path path) (parse_project_id project)
  ok (record { document_type = document_type; project = some project'; archived = is_archived })

-- `projects/<project>/<third>/<rest>/index.md`: an archived document, or the arm after that one.
abbrev pub classify_in_project :
    RelativePath → Text → Text → List Text → Result LayoutError DocumentLocation
classify_in_project path project third [] = err (invalid_document_path path)
classify_in_project path project third (category ∷ rest) =
    if third == text "archive" && not (is_empty rest)
    then located_in_project path category project true
    else located_in_project path third project false

abbrev pub project_index : RelativePath → Text → Result LayoutError DocumentLocation
project_index path project = do
  project' ← map_err (λ _. invalid_document_path path) (parse_project_id project)
  ok (record { document_type = index; project = some project'; archived = false })

-- The arms of the match on the components, which all end in `index.md`.
unfoldable pub classify_directory :
    RelativePath → RelativePath → Result LayoutError DocumentLocation
classify_directory path [] = ok (record { document_type = index; project = none; archived = false })
classify_directory path (root ∷ []) = err (invalid_document_path path)
classify_directory path (root ∷ (second ∷ [])) =
    if root == text "projects" then project_index path second else err (invalid_document_path path)
classify_directory path (root ∷ (second ∷ (third ∷ rest))) =
    if root == text "projects"
    then classify_in_project path second third rest
    else if root == text "inbox"
    then located path second none false
    else if root == text "archive"
    then located path second none true
    else err (invalid_document_path path)

unfoldable pub classify_document_path : RelativePath → Result LayoutError DocumentLocation
unfolding classify_directory strip_index
classify_document_path path = elim (strip_index path) [
  | none ↦ err (invalid_document_path path)
  | some dir ↦ classify_directory path dir
]

unfoldable pub bundle_name : DocumentType → OffsetDateTime → Text → Text
bundle_name document_type created id =
    if document_type == log then timed_name created id else dated_name created id

-- `id` is the document's identifier as a text.
unfoldable pub canonical_document_path : DocumentLocation → OffsetDateTime → Text → RelativePath
unfolding bundle_name
canonical_document_path l created id =
    if l.document_type == index
    then index_path l.project
    else if l.archived
    then archive_category_path l.project (category_name l.document_type)
      ++ (bundle_name l.document_type created id ∷ index_file ∷ [])
    else category_path l.project (category_name l.document_type)
      ++ ((if l.document_type == log then day_path created else [])
          ++ (bundle_name l.document_type created id ∷ index_file ∷ []))

pub record DocumentRecord : Type 0 where
  pub relative_path : RelativePath
  pub location : DocumentLocation
  pub metadata : DocumentMetadata
  pub revision : Revision
  pub byte_length : ℕ

-- The errors that a single document can cause.
pub data ContentIndexError : Type 0 where
  invalid_document : RelativePath → DocumentParseError → ContentIndexError
  invalid_layout : LayoutError → ContentIndexError
  archive_status_mismatch : RelativePath → ContentIndexError
  invalid_metadata : RelativePath → DocumentValidationError → ContentIndexError

unfoldable pub validate_canonical_document_path :
    Crates → RelativePath → DocumentLocation → DocumentMetadata → Result LayoutError (Unit {0})
validate_canonical_document_path crates path l m =
    reject (not (path == canonical_document_path l m.created (crates.ulid_text m.document_id)))
      (invalid_document_path path)

abbrev pub bool_eq : Bool → Bool → Bool
bool_eq true b = b
bool_eq false b = not b

unfoldable pub from_markdown :
    Crates → RelativePath → Bytes → ContentPolicy → Result ContentIndexError DocumentRecord
from_markdown crates path bytes policy = do
  m ←
      map_err (invalid_document path)
        (decode_document_metadata crates.decode_yaml bytes policy.maximum_front_matter_bytes)
  l ← map_err invalid_layout (classify_document_path path)
  map_err invalid_layout (validate_canonical_document_path crates path l m)
  reject (not (bool_eq l.archived (m.status == archived))) (archive_status_mismatch path)
  map_err (invalid_metadata path) (validate m l.document_type policy.document)
  ok (record {
    relative_path = path;
    location = l;
    metadata = m;
    revision = crates.sha256 bytes;
    byte_length = length bytes;
  })

pub record ContentIndex : Type 0 where
  pub documents : List (DocumentId × DocumentRecord)

unfoldable pub get : ContentIndex → DocumentId → Option DocumentRecord
get i id = lookup id i.documents

pub data RevisionCheckError : Type 0 where
  not_found : DocumentId → RevisionCheckError
  revision_conflict : DocumentId → Revision → Revision → RevisionCheckError

unfoldable pub require_revision :
    ContentIndex → DocumentId → Revision → Result RevisionCheckError DocumentRecord
unfolding get
require_revision i id expected = do
  document ← ok_or (get i id) (not_found id)
  reject (not (document.revision == expected)) (revision_conflict id expected document.revision)
  ok document
