-- ===== src/Repository/Apply/Plan/Additions.antt =====
-- What a planned creation and a planned attachment have checked and what they change.
use agent_knowledge.Prelude.{
  ◌+◌, ◌≤◌, ◌≡◌, refl, subst, ◌≢◌, false, none, some, [], ◌∷◌, ◌++◌, arith, true, ◌==◌, ==_iff,
  nat_eq, list_eq, option_eq, lookup, ok, if◌then◌else◌, >>=-eq-ok, reject-eq-ok, ok-injective,
  length, Bytes, ◌||◌, not,
}
use agent_knowledge.Core.Path.{PayloadPath, AttachmentName}
use agent_knowledge.Core.Time.{is_before}
use agent_knowledge.Core.Id.{DocumentId}
use agent_knowledge.Core.Document.{DocumentMetadata, type_eq, active, archived, status_eq}
use agent_knowledge.Repository.Layout.{RelativePath, create_document_path, bundle_path}
use agent_knowledge.Repository.Index.{ContentIndex, get}
use agent_knowledge.Repository.Apply.{
  VirtualDocument, Documents, write_new, resolve_document, require_accessible,
  reserve_planned_bytes, read_payload, payload_byte_length, decode_payload_metadata,
}
use agent_knowledge.Repository.Apply.Guards.{
  require_accessible_iff, current, current-insert, resolve_document_sound,
}
use agent_knowledge.Repository.Apply.Occupancy.{reserve}
use agent_knowledge.Repository.Apply.Occupancy.Laws.{occupied, reserve_sound}
use agent_knowledge.Repository.Apply.Archive.Sound.{reserve_planned_bytes_sound}
use agent_knowledge.Repository.Apply.Plan.{
  Setting, Planning, request, is_some, updated_after, beside, plan_create, plan_attachment,
}
use agent_knowledge.Repository.Apply.Plan.Updates.{read_payload_sound}

-- The document that a creation leaves.
abbrev pub created_document : Setting → DocumentId → DocumentMetadata → Bytes → VirtualDocument
created_document s id m bytes =
    let path =
      create_document_path (request s).project (request s).document_type m.created
        (s.crates.ulid_text id) in
    record {
      relative_path = path;
      canonical_path = path;
      document_type = (request s).document_type;
      project = (request s).project;
      created = m.created;
      updated = m.updated;
      archived = false;
      status = m.status;
      revision = s.crates.sha256 bytes;
      markdown = some bytes;
    }

pub record IsCreation (s : Setting) (id : DocumentId) (p p' : Planning) : Type 0 where
  pub bytes : Bytes
  pub metadata : DocumentMetadata
  pub fresh : current s.contents p.documents id ≡ none
  pub not_archived : metadata.status ≢ archived
  pub accepted : is_before s.operation_time metadata.created ≡ false
  pub update_accepted : updated_after metadata.updated s.operation_time ≡ false
  pub free :
      occupied s.files p.occupancy
        (bundle_path (created_document s id metadata bytes).relative_path (request s).document_type)
      ≡ some false
  pub planned :
      p'.plan
      ≡ p.plan ++ (write_new (created_document s id metadata bytes).relative_path bytes ∷ [])
  pub spent : p'.planned_bytes ≡ p.planned_bytes + length bytes
  pub fits : p'.planned_bytes ≤ s.maximum_planned_bytes
  pub view :
      (k : DocumentId)
      → current s.contents p'.documents k ≡ (
          if id == k
          then some (created_document s id metadata bytes)
          else current s.contents p.documents k)

unknown_current :
    (contents : ContentIndex) (documents : Documents) (id : DocumentId)
    → (is_some (lookup id documents) || is_some (get contents id)) ≡ false
    → current contents documents id ≡ none
unfolding current
unknown_current contents documents id h = ground arith

pub record IsAttachment (s : Setting) (id : DocumentId) (name : AttachmentName) (p p' : Planning)
    : Type 0 where
  pub before : VirtualDocument
  pub bytes : Bytes
  pub found : current s.contents p.documents id ≡ some before
  pub unarchived : before.archived ≡ false
  pub is_active : before.status ≡ active
  pub typed : before.document_type ≡ (request s).document_type
  pub placed : before.project ≡ (request s).project
  pub free : occupied s.files p.occupancy (beside s before.relative_path name) ≡ some false
  pub occupies :
      (q : RelativePath)
      → occupied s.files p'.occupancy q ≡ (
          if beside s before.relative_path name == q
          then some true
          else occupied s.files p.occupancy q)
  pub planned : p'.plan ≡ p.plan ++ (write_new (beside s before.relative_path name) bytes ∷ [])
  pub spent : p'.planned_bytes ≡ p.planned_bytes + length bytes
  pub fits : p'.planned_bytes ≤ s.maximum_planned_bytes
  pub view : (k : DocumentId) → current s.contents p'.documents k ≡ current s.contents p.documents k

module _ (s : Setting) (id : DocumentId) (p p' : Planning) where
  -- A creation is planned only under an identifier that no document has, with a status that is not
  -- archived, with times that are not after the operation time, and at a free place. The plan grows by
  -- the new file, the planned bytes by its length within the limit, and no other document changes.
  pub plan_create_sound :
      (content : PayloadPath) → plan_create s id content p ≡ ok p' → IsCreation s id p p'
  unfolding plan_create
  plan_create_sound content h =
      let (fresh, h1) =
        reject-eq-ok (is_some (lookup id p.documents) || is_some (get s.contents id)) _ _ h in
      let (size, z, h2) = >>=-eq-ok (payload_byte_length s.claimed content) _ h1 in
      let (next, n, h3) =
        >>=-eq-ok (reserve_planned_bytes p.planned_bytes size s.maximum_planned_bytes) _ h2 in
      let (bytes, b, h4) = >>=-eq-ok (read_payload s.crates s.files s.claimed content) _ h3 in
      let (m, e, h5) = >>=-eq-ok (decode_payload_metadata s.crates s.policy bytes content) _ h4 in
      let (times, h6) =
        reject-eq-ok
          (is_before s.operation_time m.created || updated_after m.updated s.operation_time) _ _
          h5 in
      let (status, h7) = reject-eq-ok (m.status == archived) _ _ h6 in
      let after = created_document s id m bytes in
      let (occupancy, o, h8) =
        >>=-eq-ok
          (reserve s.files p.occupancy (bundle_path after.relative_path (request s).document_type))
          _ h7 in
      let (sum, fits) =
        reserve_planned_bytes_sound p.planned_bytes size s.maximum_planned_bytes n in
      let count = read_payload_sound s.crates s.files s.claimed content z b in
      subst (IsCreation s id p) (ok-injective h8) (record {
        bytes = bytes;
        metadata = m;
        fresh = unknown_current s.contents p.documents id fresh;
        not_archived = λ e. ground (arith, ==_iff m.status archived);
        accepted = ground arith;
        update_accepted = ground arith;
        free = (reserve_sound s.files p.occupancy _ occupancy o).0;
        planned = refl;
        spent = omega (arith, sum, count);
        fits = fits;
        view = λ k. current-insert s.contents p.documents id after k;
      })

  -- An attachment is planned only for a document of the class of the request that is active and not
  -- archived, and beside it at a place that the planner's occupancy answers free for: its entry for
  -- the path, and where it has none, the file system before the plan, so that files which a planned
  -- move of their directory brings along do not count. That place is then occupied for the planner and
  -- no other path changes. The plan grows by the new file, the planned bytes by its length within the
  -- limit, and no document changes.
  pub plan_attachment_sound :
      (source : PayloadPath) (name : AttachmentName)
      → plan_attachment s id source name p ≡ ok p'
      → IsAttachment s id name p p'
  unfolding plan_attachment
  plan_attachment_sound source name h =
      let (found, r, h1) = >>=-eq-ok (resolve_document p.documents s.contents id) _ h in
      let d = found.0 in
      let (u1, accessible, h2) =
        >>=-eq-ok (require_accessible d id (request s).project (request s).document_type) _ h1 in
      let (status, h3) = reject-eq-ok (not (d.status == active)) _ _ h2 in
      let (occupancy, o, h4) =
        >>=-eq-ok (reserve s.files p.occupancy (beside s d.relative_path name)) _ h3 in
      let (size, z, h5) = >>=-eq-ok (payload_byte_length s.claimed source) _ h4 in
      let (next, n, h6) =
        >>=-eq-ok (reserve_planned_bytes p.planned_bytes size s.maximum_planned_bytes) _ h5 in
      let (bytes, b, h7) = >>=-eq-ok (read_payload s.crates s.files s.claimed source) _ h6 in
      let (is, same) = resolve_document_sound s.contents p.documents id found r in
      let (unarchived, typed, placed) =
        (require_accessible_iff d id (request s).project (request s).document_type).0 accessible in
      let (sum, fits) =
        reserve_planned_bytes_sound p.planned_bytes size s.maximum_planned_bytes n in
      let count = read_payload_sound s.crates s.files s.claimed source z b in
      subst (IsAttachment s id name p) (ok-injective h7) (record {
        before = d;
        bytes = bytes;
        found = is;
        unarchived = unarchived;
        is_active = ground (arith, ==_iff d.status active);
        typed = typed;
        placed = placed;
        free = (reserve_sound s.files p.occupancy _ occupancy o).0;
        occupies = (reserve_sound s.files p.occupancy _ occupancy o).1;
        planned = refl;
        spent = omega (arith, sum, count);
        fits = fits;
        view = same;
      })
