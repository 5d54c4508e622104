-- ===== src/Repository/Apply/Guards.antt =====
-- What the guards of the planning accept, and the document that a handler works on.
use agent_knowledge.Prelude.{
  ◌≡◌, ◌≢◌, ◌↔◌, false, Option, none, some, ◌∷◌, arith, ◌==◌, ==_iff, nat_eq, list_eq, option_eq,
  lookup, ok, if◌then◌else◌,
}
use agent_knowledge.Core.Path.{ProjectId}
use agent_knowledge.Core.Id.{DocumentId}
use agent_knowledge.Core.Revision.{Revision}
use agent_knowledge.Core.Document.{DocumentType, index, log, type_eq, active, status_eq}
use agent_knowledge.Repository.Index.{ContentIndex, DocumentRecord, get}
use agent_knowledge.Repository.Apply.{
  VirtualDocument, Documents, from_record, resolve_document, require_revision,
  require_classification, require_accessible, require_mutable, require_movable,
}

-- Documents that no operation may change: archived ones, logs, and those that are no longer active.
abbrev pub IsWritable : VirtualDocument → Type 0
IsWritable d = (d.archived ≡ false) × (d.document_type ≢ log) × (d.status ≡ active)

module _ (d : VirtualDocument) (id : DocumentId) where
  pub require_revision_iff :
      (expected : Revision) → (require_revision d id expected ≡ ok tt) ↔ (d.revision ≡ expected)
  unfolding require_revision
  require_revision_iff expected = ground (arith, ==_iff d.revision expected)

  pub require_classification_iff :
      (p : Option ProjectId) (t : DocumentType)
      → (require_classification d id p t ≡ ok tt) ↔ ((d.document_type ≡ t) × (d.project ≡ p))
  unfolding require_classification
  require_classification_iff p t = ground (arith, ==_iff d.document_type t, ==_iff d.project p)

  pub require_accessible_iff :
      (p : Option ProjectId) (t : DocumentType)
      → (require_accessible d id p t ≡ ok tt)
        ↔ ((d.archived ≡ false) × (d.document_type ≡ t) × (d.project ≡ p))
  unfolding require_accessible
  require_accessible_iff p t = ground (arith, require_classification_iff p t)

  -- A document may be updated exactly when it is not archived, has the class of the request, is no
  -- log, and is active.
  pub require_mutable_iff :
      (p : Option ProjectId) (t : DocumentType)
      → (require_mutable d id p t ≡ ok tt)
        ↔ (IsWritable d × (d.document_type ≡ t) × (d.project ≡ p))
  unfolding require_mutable
  require_mutable_iff p t =
      ground (arith, require_accessible_iff p t, ==_iff d.document_type log, ==_iff d.status active)

  pub require_movable_iff :
      (require_movable d id ≡ ok tt) ↔ (IsWritable d × (d.document_type ≢ index))
  unfolding require_movable
  require_movable_iff =
      ground
        (arith, ==_iff d.document_type log, ==_iff d.document_type index, ==_iff d.status active)

-- The document as the plan has it: what was planned for it, and else what the index holds.
abbrev pub of_index : Option DocumentRecord → Option VirtualDocument
of_index none = none
of_index (some r) = some (from_record r)

unfoldable pub current : ContentIndex → Documents → DocumentId → Option VirtualDocument
current contents documents id = elim (lookup id documents) [
  | some d ↦ some d
  | none ↦ of_index (get contents id)
]

module _ (contents : ContentIndex) (documents : Documents) (id : DocumentId) where
  pub current-insert :
      (d : VirtualDocument) (k : DocumentId)
      → current contents ((id, d) ∷ documents) k
        ≡ (if id == k then some d else current contents documents k)
  unfolding current lookup
  current-insert d k = ground arith

  -- To resolve a document answers the current one, and changes no document.
  pub resolve_document_sound :
      (found : VirtualDocument × Documents)
      → resolve_document documents contents id ≡ ok found
      → (current contents documents id ≡ some found.0)
        × ((k : DocumentId) → current contents found.1 k ≡ current contents documents k)
  unfolding resolve_document current lookup
  resolve_document_sound found h = ground (arith, ==_iff id)
