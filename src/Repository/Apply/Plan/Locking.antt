-- ===== src/Repository/Apply/Plan/Locking.antt =====
-- The operations that name a revision or a document that is not there.
use agent_knowledge.Prelude.{
  ◌≡◌, refl, ◌≢◌, none, some, arith, ==_iff, ==_self, list_eq, nat_eq, option_eq, ok, err, lookup,
  Option-cases, inl, inr, ◌∷◌,
}
use agent_knowledge.Core.Path.{PayloadPath, AttachmentName}
use agent_knowledge.Core.Id.{DocumentId}
use agent_knowledge.Core.Revision.{Revision}
use agent_knowledge.Core.Document.{index, log, type_eq}
use agent_knowledge.Repository.Index.{ContentIndex}
use agent_knowledge.Repository.Apply.{
  VirtualDocument, Documents, resolve_document, require_revision, document_not_found,
  revision_conflict,
}
use agent_knowledge.Repository.Apply.Guards.{current}
use agent_knowledge.Repository.Apply.Plan.{
  Setting, Planning, request, plan_update, plan_move, plan_archive, plan_attachment,
}

resolve_missing :
    (contents : ContentIndex) (documents : Documents) (id : DocumentId)
    → current contents documents id ≡ none
    → resolve_document documents contents id ≡ err (document_not_found id)
unfolding current resolve_document
resolve_missing contents documents id h = ground arith

resolve_found :
    (contents : ContentIndex) (documents : Documents) (id : DocumentId) (d : VirtualDocument)
    → current contents documents id ≡ some d
    → (found : Documents) × (resolve_document documents contents id ≡ ok (d, found))
unfolding current resolve_document
resolve_found contents documents id d h = elim (Option-cases (lookup id documents)) [
  | inr (v, e) ↦ (documents, ground arith)
  | inl e ↦ ((id, d) ∷ documents, ground arith)
]

conflict :
    (d : VirtualDocument) (id : DocumentId) (expected : Revision)
    → d.revision ≢ expected
    → require_revision d id expected ≡ err (revision_conflict id expected d.revision)
unfolding require_revision
conflict d id expected stale = ground (arith, ==_iff d.revision expected)

module _ (s : Setting) (id : DocumentId) (p : Planning) (expected : Revision) where
  -- An update, an archiving or an attachment of a document that neither the index nor the plan has
  -- fails as not found.
  pub missing_document_refused :
      (content : PayloadPath) (name : AttachmentName)
      → current s.contents p.documents id ≡ none
      → (plan_update s id expected content p ≡ err (document_not_found id))
        × (plan_archive s id expected p ≡ err (document_not_found id))
        × (plan_attachment s id content name p ≡ err (document_not_found id))
  unfolding plan_update plan_archive plan_attachment
  missing_document_refused content name h =
      let e = resolve_missing s.contents p.documents id h in (rw e refl, rw e refl, rw e refl)

  -- An update or an archiving that expects another revision than the one that the document has, after
  -- what is planned so far, fails with the two revisions, whatever else is wrong with it.
  pub stale_revision_refused :
      (content : PayloadPath) (d : VirtualDocument)
      → current s.contents p.documents id ≡ some d
      → d.revision ≢ expected
      → (plan_update s id expected content p ≡ err (revision_conflict id expected d.revision))
        × (plan_archive s id expected p ≡ err (revision_conflict id expected d.revision))
  unfolding plan_update plan_archive
  stale_revision_refused content d h stale =
      let (found, e) = resolve_found s.contents p.documents id d h in
      let c = conflict d id expected stale in (rw (e, c) refl, rw (e, c) refl)

  -- So does a move, where its destination is of the class of the request, neither log nor index.
  pub stale_move_refused :
      (d : VirtualDocument)
      → current s.contents p.documents id ≡ some d
      → d.revision ≢ expected
      → (request s).document_type ≢ log
      → (request s).document_type ≢ index
      → plan_move s id expected (request s).project (request s).document_type p
        ≡ err (revision_conflict id expected d.revision)
  unfolding plan_move
  stale_move_refused d h stale a b =
      let (found, e) = resolve_found s.contents p.documents id d h in
      ground (
        arith,
        e,
        conflict d id expected stale,
        ==_self (request s).document_type,
        ==_self (request s).project,
        ==_iff (request s).document_type log,
        ==_iff (request s).document_type index,
      )
