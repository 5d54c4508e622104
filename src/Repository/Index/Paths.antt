-- ===== src/Repository/Index/Paths.antt =====
-- The paths that a request writes to are the ones that the index expects and classifies back.
use agent_knowledge.Prelude.{◌≡◌, refl, ◌≢◌, true, false, Option, none, some, ok, Text, list_beq}
use agent_knowledge.Core.Path.{ProjectId, parse_project_id}
use agent_knowledge.Core.Time.{OffsetDateTime}
use agent_knowledge.Core.Document.{DocumentType, index}
use agent_knowledge.Repository.Layout.{
  RelativePath, create_document_path, archive_document_path, bundle_name_of,
}
use agent_knowledge.Repository.Index.{classify_document_path, canonical_document_path}

abbrev pub IsProject : Option ProjectId → Type 0
IsProject none = Unit
IsProject (some p) = parse_project_id p ≡ ok p

-- The index classifies the path at which a request creates a document as a document of the same
-- type and project that is not archived.
pub classify-create_document_path :
    (project : Option ProjectId) (t : DocumentType) (created : OffsetDateTime) (id : Text)
    → IsProject project
    → classify_document_path (create_document_path project t created id)
      ≡ ok (record { document_type = t; project = project; archived = false })
unfolding classify_document_path create_document_path list_beq
classify-create_document_path none index created id h = refl
classify-create_document_path none _ created id h = refl
classify-create_document_path (some p) index created id h = rw h
classify-create_document_path (some p) _ created id h = rw h

-- The index classifies the path to which a request archives a document as an archived document of
-- the same type and project. An index document has no archive.
pub classify-archive_document_path :
    (project : Option ProjectId) (t : DocumentType) (path : RelativePath) (id : Text)
    → IsProject project
    → t ≢ index
    → classify_document_path (archive_document_path project t path id)
      ≡ ok (record { document_type = t; project = project; archived = true })
unfolding classify_document_path archive_document_path list_beq
classify-archive_document_path none index path id h n = absurd (n refl)
classify-archive_document_path none _ path id h n = refl
classify-archive_document_path (some p) index path id h n = absurd (n refl)
classify-archive_document_path (some p) _ path id h n = rw h

-- The path at which a request creates a document is the canonical one of its classification.
pub canonical-create_document_path :
    (project : Option ProjectId) (t : DocumentType) (created : OffsetDateTime) (id : Text)
    → canonical_document_path
        (record { document_type = t; project = project; archived = false })
        created
        id
      ≡ create_document_path project t created id
unfolding canonical_document_path create_document_path
canonical-create_document_path project index created id = refl
canonical-create_document_path project _ created id = refl

-- Archiving a document that stands at its canonical path gives the canonical path of the archived
-- document: the bundle keeps its name. An index document has no archive.
pub canonical-archive_document_path :
    (project : Option ProjectId) (t : DocumentType) (created : OffsetDateTime) (id : Text)
    → t ≢ index
    → archive_document_path project t (create_document_path project t created id) id
      ≡ canonical_document_path
          (record { document_type = t; project = project; archived = true })
          created
          id
unfolding canonical_document_path create_document_path archive_document_path bundle_name_of
canonical-archive_document_path none index created id n = absurd (n refl)
canonical-archive_document_path none _ created id n = refl
canonical-archive_document_path (some p) index created id n = absurd (n refl)
canonical-archive_document_path (some p) _ created id n = refl
