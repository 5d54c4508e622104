-- ===== src/Repository/Apply/Plan/Updates.antt =====
-- What a planned update has checked and what it changes.
use agent_knowledge.Prelude.{
  ℕ, ◌+◌, ◌≤◌, ◌≡◌, refl, ap, ◌∙◌, subst, ◌≢◌, true, false, some, [], ◌∷◌, ◌++◌, arith, ◌==◌,
  ==_iff, nat_eq, list_eq, option_eq, ok, if◌then◌else◌, >>=-eq-ok, ok-injective, length, Bytes,
}
use agent_knowledge.Core.Path.{PayloadPath}
use agent_knowledge.Core.Time.{OffsetDateTime, is_before, is_at_most, is_same}
use agent_knowledge.Core.Id.{DocumentId}
use agent_knowledge.Core.Revision.{Revision}
use agent_knowledge.Core.Document.{DocumentStatus, DocumentMetadata, type_eq, archived, status_eq}
use agent_knowledge.Repository.Index.{Crates, ContentPolicy}
use agent_knowledge.Core.Markdown.{decode_document_metadata}
use agent_knowledge.Repository.Apply.{
  Files, ValidatedPackage, VirtualDocument, replace, resolve_document, require_revision,
  require_mutable, payload_byte_length, reserve_planned_bytes, read_payload,
  decode_payload_metadata,
}
use agent_knowledge.Repository.Apply.Guards.{
  IsWritable, require_revision_iff, require_mutable_iff, current, current-insert,
  resolve_document_sound,
}
use agent_knowledge.Repository.Apply.Archive.{previous_update}
use agent_knowledge.Repository.Apply.Archive.Sound.{reserve_planned_bytes_sound}
use agent_knowledge.Repository.Apply.Plan.{Setting, Planning, request, check_update, plan_update}

-- The bytes that are read are as many as were reserved for them.
pub read_payload_sound :
    (crates : Crates) (files : Files) (claimed : ValidatedPackage) (path : PayloadPath) {size : ℕ}
    {bytes : Bytes}
    → payload_byte_length claimed path ≡ ok size
    → read_payload crates files claimed path ≡ ok bytes
    → length bytes ≡ size
unfolding payload_byte_length read_payload
read_payload_sound crates files claimed path h g = ground (arith, ==_iff {A = ℕ})

module _ (s : Setting) (d : VirtualDocument) (id : DocumentId) where
  pub check_update_sound :
      (m : DocumentMetadata) {updated : OffsetDateTime}
      → check_update s d id m ≡ ok updated
      → (is_same m.created d.created ≡ true)
        × (m.updated ≡ some updated)
        × (m.status ≢ archived)
        × (is_before s.operation_time updated ≡ false)
        × (is_at_most updated (previous_update d.updated d.created) ≡ false)
  unfolding check_update
  check_update_sound m h = ground (arith, ==_iff m.status archived)

-- The text of a payload that is accepted decodes to its metadata.
decode_payload_metadata_sound :
    (crates : Crates) (policy : ContentPolicy) (bytes : Bytes) (path : PayloadPath)
    {m : DocumentMetadata}
    → decode_payload_metadata crates policy bytes path ≡ ok m
    → decode_document_metadata crates.decode_yaml bytes policy.maximum_front_matter_bytes ≡ ok m
unfolding decode_payload_metadata
decode_payload_metadata_sound crates policy bytes path h = ground arith

-- The front matter of a text gives this creation time.
abbrev pub Carries : Setting → Bytes → OffsetDateTime → Type 0
Carries s bytes created =
    (m : DocumentMetadata) × (decode_document_metadata s.crates.decode_yaml bytes
        s.policy.maximum_front_matter_bytes
      ≡ ok m)
    × (m.created.instant ≡ created.instant)

-- The document that an update leaves.
abbrev pub updated_document :
    Setting → VirtualDocument → DocumentStatus → OffsetDateTime → Bytes → VirtualDocument
updated_document s d status updated bytes = record d {
  status = status;
  updated = some updated;
  revision = s.crates.sha256 bytes;
  markdown = some bytes;
}

-- What holds of a planned update: what it has checked of the document, its write, and its documents.
pub record IsUpdate (s : Setting) (id : DocumentId) (expected : Revision) (p p' : Planning)
    : Type 0 where
  pub before : VirtualDocument
  pub bytes : Bytes
  pub updated : OffsetDateTime
  pub status : DocumentStatus
  pub found : current s.contents p.documents id ≡ some before
  pub locked : before.revision ≡ expected
  pub writable : IsWritable before
  pub typed : before.document_type ≡ (request s).document_type
  pub placed : before.project ≡ (request s).project
  pub carries : Carries s bytes before.created
  pub status_read : carries.0.status ≡ status
  pub time_read : carries.0.updated ≡ some updated
  pub not_archived : status ≢ archived
  pub later : is_at_most updated (previous_update before.updated before.created) ≡ false
  pub accepted : is_before s.operation_time updated ≡ false
  pub planned : p'.plan ≡ p.plan ++ (replace before.relative_path bytes ∷ [])
  pub spent : p'.planned_bytes ≡ p.planned_bytes + length bytes
  pub fits : p'.planned_bytes ≤ s.maximum_planned_bytes
  pub view :
      (k : DocumentId)
      → current s.contents p'.documents k ≡ (
          if id == k
          then some (updated_document s before status updated bytes)
          else current s.contents p.documents k)

module _ (s : Setting) (id : DocumentId) (expected : Revision) (content : PayloadPath)
    (p p' : Planning) where
  -- An update is planned only of a document with the expected revision that is not archived, is no
  -- log, is active and has the class of the request. The text of the update decodes, with a creation
  -- time of the same instant as the document's and with the status and time that the document gets;
  -- that time is later than the last one and not after the operation time, and the status is not
  -- archived. The plan grows by the replacement of that file, the planned bytes by its length within
  -- the limit, and no other document changes.
  pub plan_update_sound : plan_update s id expected content p ≡ ok p' → IsUpdate s id expected p p'
  unfolding plan_update
  plan_update_sound h =
      let (found, r, h1) = >>=-eq-ok (resolve_document p.documents s.contents id) _ h in
      let d = found.0 in
      let (u1, locked, h2) = >>=-eq-ok (require_revision d id expected) _ h1 in
      let (u2, mutable, h3) =
        >>=-eq-ok (require_mutable d id (request s).project (request s).document_type) _ h2 in
      let (size, z, h4) = >>=-eq-ok (payload_byte_length s.claimed content) _ h3 in
      let (next, n, h5) =
        >>=-eq-ok (reserve_planned_bytes p.planned_bytes size s.maximum_planned_bytes) _ h4 in
      let (bytes, b, h6) = >>=-eq-ok (read_payload s.crates s.files s.claimed content) _ h5 in
      let (m, e, h7) = >>=-eq-ok (decode_payload_metadata s.crates s.policy bytes content) _ h6 in
      let (updated, c, h8) = >>=-eq-ok (check_update s d id m) _ h7 in
      let (is, same) = resolve_document_sound s.contents p.documents id found r in
      let (writable, typed, placed) =
        (require_mutable_iff d id (request s).project (request s).document_type).0 mutable in
      let (created, when, unarchived, accepted, later) = check_update_sound s d id m c in
      let (sum, fits) =
        reserve_planned_bytes_sound p.planned_bytes size s.maximum_planned_bytes n in
      let count = read_payload_sound s.crates s.files s.claimed content z b in
      subst (IsUpdate s id expected p) (ok-injective h8) (record {
        before = d;
        bytes = bytes;
        updated = updated;
        status = m.status;
        found = is;
        locked = (require_revision_iff d id expected).0 locked;
        writable = writable;
        typed = typed;
        placed = placed;
        carries =
            (m, decode_payload_metadata_sound s.crates s.policy bytes content e, ground arith);
        status_read = refl;
        time_read = when;
        not_archived = unarchived;
        later = later;
        accepted = accepted;
        planned = refl;
        spent = omega (arith, sum, count);
        fits = fits;
        view = λ k.
            current-insert s.contents found.1 id (updated_document s d m.status updated bytes) k
            ∙ ap (λ o. if id == k then some (updated_document s d m.status updated bytes) else o)
                (same k);
      })
