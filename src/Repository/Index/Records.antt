-- ===== src/Repository/Index/Records.antt =====
-- Documents at the paths that requests write to are accepted by the index.
use agent_knowledge.Prelude.{
  ◌≡◌, sym, ◌≢◌, Bool, true, false, not, Option, arith, ◌==◌, ==_iff, nat_eq, list_eq, length, ok,
  Bytes,
}
use agent_knowledge.Core.Path.{ProjectId}
use agent_knowledge.Core.Document.{
  DocumentType, index, DocumentMetadata, archived, status_eq, status_iff, validate,
}
use agent_knowledge.Core.Markdown.{decode_document_metadata}
use agent_knowledge.Repository.Layout.{
  RelativePath, DocumentLocation, create_document_path, archive_document_path,
}
use agent_knowledge.Repository.Index.{
  Crates, ContentPolicy, classify_document_path, canonical_document_path,
  validate_canonical_document_path, from_markdown, bool_eq,
}
use agent_knowledge.Repository.Index.Paths.{
  IsProject, classify-create_document_path, classify-archive_document_path,
  canonical-create_document_path, canonical-archive_document_path,
}

same_status : (a b : Bool) → a ≡ b → not (bool_eq a b) ≡ false
same_status a b e = ground arith

module _ (crates : Crates) (policy : ContentPolicy) (bytes : Bytes) (m : DocumentMetadata) where
  -- A document at its canonical path, with the status that the path implies.
  indexed_at :
      (path : RelativePath) (l : DocumentLocation)
      → decode_document_metadata crates.decode_yaml bytes policy.maximum_front_matter_bytes ≡ ok m
      → classify_document_path path ≡ ok l
      → path ≡ canonical_document_path l m.created (crates.ulid_text m.document_id)
      → l.archived ≡ (m.status == archived)
      → validate m l.document_type policy.document ≡ ok tt
      → from_markdown crates path bytes policy
        ≡ ok (record {
          relative_path = path;
          location = l;
          metadata = m;
          revision = crates.sha256 bytes;
          byte_length = length bytes;
        })
  unfolding from_markdown validate_canonical_document_path
  indexed_at path l decoded classified canonical status valid =
      rw (decoded, classified, (==_iff path _).1 canonical)
        (rw (same_status l.archived (m.status == archived) status) (rw valid))

  -- A document that is not archived, at the path at which a request creates it, is accepted by the
  -- index with its type and project, where it decodes and its metadata is valid for its type.
  pub from_markdown-create_document_path :
      (project : Option ProjectId) (t : DocumentType)
      → IsProject project
      → decode_document_metadata crates.decode_yaml bytes policy.maximum_front_matter_bytes ≡ ok m
      → validate m t policy.document ≡ ok tt
      → m.status ≢ archived
      → let path = create_document_path project t m.created (crates.ulid_text m.document_id) in
        from_markdown crates path bytes policy
        ≡ ok (record {
          relative_path = path;
          location = record { document_type = t; project = project; archived = false };
          metadata = m;
          revision = crates.sha256 bytes;
          byte_length = length bytes;
        })
  from_markdown-create_document_path project t known decoded valid live =
      indexed_at _ (record { document_type = t; project = project; archived = false }) decoded
        (classify-create_document_path project t m.created (crates.ulid_text m.document_id) known)
        (sym (canonical-create_document_path project t m.created (crates.ulid_text m.document_id)))
        (ground (arith, status_iff m.status archived, live)) valid

  -- So is an archived document at the path to which archiving moves it from there. An index
  -- document has no archive.
  pub from_markdown-archive_document_path :
      (project : Option ProjectId) (t : DocumentType)
      → IsProject project
      → t ≢ index
      → decode_document_metadata crates.decode_yaml bytes policy.maximum_front_matter_bytes ≡ ok m
      → validate m t policy.document ≡ ok tt
      → m.status ≡ archived
      → let id = crates.ulid_text m.document_id in
        let path =
          archive_document_path project t (create_document_path project t m.created id) id in
        from_markdown crates path bytes policy
        ≡ ok (record {
          relative_path = path;
          location = record { document_type = t; project = project; archived = true };
          metadata = m;
          revision = crates.sha256 bytes;
          byte_length = length bytes;
        })
  from_markdown-archive_document_path project t known other decoded valid old =
      let id = crates.ulid_text m.document_id in
      indexed_at _ (record { document_type = t; project = project; archived = true }) decoded
        (classify-archive_document_path project t (create_document_path project t m.created id) id
          known other)
        (canonical-archive_document_path project t m.created id other)
        (ground (arith, status_iff m.status archived, old)) valid
