-- ===== src/Repository/Apply/Plan/Moves.antt =====
-- What a planned move and a planned archiving have checked and what they change.
use agent_knowledge.Prelude.{
  ◌+◌, ◌≤◌, ◌≡◌, refl, ap, ◌∙◌, subst, ◌≢◌, true, false, Option, none, some, [], ◌∷◌, ◌++◌, arith,
  ◌==◌, ==_iff, nat_eq, list_eq, option_eq, ok, if◌then◌else◌, >>=-eq-ok, reject-eq-ok, map_err,
  map_err-eq-ok, ok-injective, length, Bytes, ◌||◌, not,
}
use agent_knowledge.Core.Path.{ProjectId}
use agent_knowledge.Core.Id.{DocumentId}
use agent_knowledge.Core.Revision.{Revision}
use agent_knowledge.Core.Document.{
  DocumentType, DocumentMetadata, index, log, type_eq, archived, status_eq,
}
use agent_knowledge.Core.Markdown.{decode_document_metadata}
use agent_knowledge.Repository.Layout.{
  RelativePath, create_document_path, archive_document_path, bundle_path,
}
use agent_knowledge.Repository.Apply.{
  VirtualDocument, replace, move, resolve_document, require_revision, require_classification,
  require_movable, generated_document,
}
use agent_knowledge.Repository.Apply.Guards.{
  IsWritable, require_revision_iff, require_movable_iff, require_classification_iff, current,
  current-insert, resolve_document_sound,
}
use agent_knowledge.Repository.Apply.Occupancy.{move_path}
use agent_knowledge.Repository.Apply.Occupancy.Laws.{occupied, move_path_sound}
use agent_knowledge.Repository.Apply.Archive.{archived_markdown}
use agent_knowledge.Repository.Apply.Archive.Sound.{IsArchived, archived_markdown_sound}
use agent_knowledge.Repository.Apply.Plan.{
  Setting, Planning, request, markdown_of, plan_move, plan_archive,
}

-- Where a document lies, with the directory for a document that has one.
abbrev pub bundle_of : VirtualDocument → RelativePath
bundle_of d = bundle_path d.relative_path d.document_type

-- The document that a move leaves.
abbrev pub moved_document :
    Setting → DocumentId → VirtualDocument → Option ProjectId → DocumentType → VirtualDocument
moved_document s id d project document_type = record d {
  relative_path = create_document_path project document_type d.created (s.crates.ulid_text id);
  document_type = document_type;
  project = project;
}

-- The document that an archiving leaves.
abbrev pub archived_document : Setting → DocumentId → VirtualDocument → Bytes → VirtualDocument
archived_document s id d generated = record d {
  relative_path =
      archive_document_path d.project d.document_type d.relative_path (s.crates.ulid_text id);
  archived = true;
  status = archived;
  updated = some s.operation_time;
  revision = s.crates.sha256 generated;
  markdown = none;
}

-- What both have checked of the document, the move of its bundle, and the documents after it.
pub record IsRelocation (s : Setting) (id : DocumentId) (expected : Revision) (p p' : Planning)
    (before after : VirtualDocument) : Type 0 where
  pub found : current s.contents p.documents id ≡ some before
  pub locked : before.revision ≡ expected
  pub writable : IsWritable before
  pub no_index : before.document_type ≢ index
  pub differs : bundle_of before ≢ bundle_of after
  pub free : occupied s.files p.occupancy (bundle_of after) ≡ some false
  pub occupies :
      (q : RelativePath)
      → occupied s.files p'.occupancy q ≡ (
          if bundle_of before == q
          then some false
          else if bundle_of after == q
          then some true
          else occupied s.files p.occupancy q)
  pub view :
      (k : DocumentId)
      → current s.contents p'.documents k
        ≡ (if id == k then some after else current s.contents p.documents k)

pub record IsMove (s : Setting) (id : DocumentId) (expected : Revision) (p p' : Planning)
    (project : Option ProjectId) (document_type : DocumentType) : Type 0 where
  pub before : VirtualDocument
  pub relocation :
      IsRelocation s id expected p p' before (moved_document s id before project document_type)
  pub typed : document_type ≡ (request s).document_type
  pub placed : project ≡ (request s).project
  pub no_log : document_type ≢ log
  pub no_index : document_type ≢ index
  pub planned :
      p'.plan
      ≡ p.plan
        ++ (move (bundle_of before) (bundle_of (moved_document s id before project document_type))
            ∷ [])
  pub spent : p'.planned_bytes ≡ p.planned_bytes

-- What a planned archiving has checked, besides the checks of a move, and what it generates.
pub record IsArchiving (s : Setting) (id : DocumentId) (expected : Revision) (p p' : Planning)
    : Type 0 where
  pub before : VirtualDocument
  pub bytes : Bytes
  pub generated : Bytes
  pub metadata : DocumentMetadata
  pub relocation : IsRelocation s id expected p p' before (archived_document s id before generated)
  pub typed : before.document_type ≡ (request s).document_type
  pub placed : before.project ≡ (request s).project
  pub source : markdown_of s before ≡ ok bytes
  pub made :
      IsArchived s.crates s.policy bytes generated
        (request s).request_id
        s.operation_time
        (length generated)
  pub decodes :
      decode_document_metadata s.crates.decode_yaml generated s.policy.maximum_front_matter_bytes
      ≡ ok metadata
  pub planned :
      p'.plan
      ≡ p.plan
        ++ (replace before.relative_path generated
            ∷ (move (bundle_of before) (bundle_of (archived_document s id before generated)) ∷ []))
  pub spent : p'.planned_bytes ≡ p.planned_bytes + length generated
  pub fits : p'.planned_bytes ≤ s.maximum_planned_bytes

module _ (s : Setting) (id : DocumentId) (expected : Revision) (p p' : Planning) where
  -- A move is planned only to the class of the request, which is neither log nor index, and only of an
  -- active document of the expected revision that is no log, no index and not archived; to a free
  -- place, another than its own. The plan grows by the move of its bundle, the place it leaves is
  -- free and the one it takes is occupied, and no other document changes.
  pub plan_move_sound :
      (project : Option ProjectId) (document_type : DocumentType)
      → plan_move s id expected project document_type p ≡ ok p'
      → IsMove s id expected p p' project document_type
  unfolding plan_move
  plan_move_sound project document_type h =
      let (class, h1) =
        reject-eq-ok
          (not (document_type == (request s).document_type) || not (project == (request s).project))
          _ _ h in
      let (kind, h2) = reject-eq-ok (document_type == log || document_type == index) _ _ h1 in
      let (found, r, h3) = >>=-eq-ok (resolve_document p.documents s.contents id) _ h2 in
      let d = found.0 in
      let (u1, locked, h4) = >>=-eq-ok (require_revision d id expected) _ h3 in
      let (u2, movable, h5) = >>=-eq-ok (require_movable d id) _ h4 in
      let after = moved_document s id d project document_type in
      let (occupancy, o, h6) =
        >>=-eq-ok (move_path s.files p.occupancy (bundle_of d) (bundle_of after)) _ h5 in
      let (is, same) = resolve_document_sound s.contents p.documents id found r in
      let (writable, no_index) = (require_movable_iff d id).0 movable in
      let (differs, free, occupies) =
        move_path_sound s.files p.occupancy (bundle_of d) (bundle_of after) occupancy o in
      subst (λ p'. IsMove s id expected p p' project document_type) (ok-injective h6)
        (record {
          before = d;
          relocation = record {
            found = is;
            locked = (require_revision_iff d id expected).0 locked;
            writable = writable;
            no_index = no_index;
            differs = differs;
            free = free;
            occupies = occupies;
            view = λ k.
                current-insert s.contents found.1 id after k
                ∙ ap (λ o. if id == k then some after else o) (same k);
          };
          typed = ground (arith, ==_iff document_type (request s).document_type);
          placed = ground (arith, ==_iff project (request s).project);
          no_log = λ e. ground (arith, ==_iff document_type log);
          no_index = λ e. ground (arith, ==_iff document_type index);
          planned = refl;
          spent = refl;
        })

  -- An archiving is planned only of an active document of the expected revision and of the class of the
  -- request that is no log, no index and not archived, and to a free place. The plan grows by the
  -- replacement of the file by the generated text and then the move of its bundle, the planned bytes by
  -- the length of that text within the limit, and no other document changes.
  pub plan_archive_sound : plan_archive s id expected p ≡ ok p' → IsArchiving s id expected p p'
  unfolding plan_archive
  plan_archive_sound h =
      let (found, r, h1) = >>=-eq-ok (resolve_document p.documents s.contents id) _ h in
      let d = found.0 in
      let (u1, locked, h2) = >>=-eq-ok (require_revision d id expected) _ h1 in
      let (u2, class, h3) =
        >>=-eq-ok (require_classification d id (request s).project (request s).document_type) _
          h2 in
      let (u3, movable, h4) = >>=-eq-ok (require_movable d id) _ h3 in
      let destination =
        bundle_path
          (archive_document_path d.project d.document_type d.relative_path (s.crates.ulid_text id))
          d.document_type in
      let (occupancy, o, h5) =
        >>=-eq-ok (move_path s.files p.occupancy (bundle_of d) destination) _ h4 in
      let (bytes, b, h6) = >>=-eq-ok (markdown_of s d) _ h5 in
      let (generated, g, h7) =
        >>=-eq-ok
          (archived_markdown s.crates s.policy bytes (request s).request_id s.operation_time
            p.planned_bytes s.maximum_planned_bytes)
          _ h6 in
      let (metadata, m, h8) =
        >>=-eq-ok
          (map_err generated_document (
            decode_document_metadata s.crates.decode_yaml generated.0
              s.policy.maximum_front_matter_bytes))
          _ h7 in
      let (is, same) = resolve_document_sound s.contents p.documents id found r in
      let (typed, placed) =
        (require_classification_iff d id (request s).project (request s).document_type).0 class in
      let (writable, no_index) = (require_movable_iff d id).0 movable in
      let (differs, free, occupies) =
        move_path_sound s.files p.occupancy (bundle_of d) destination occupancy o in
      let (spent, made, sum, fits) =
        archived_markdown_sound s.crates s.policy bytes (request s).request_id s.operation_time
          p.planned_bytes s.maximum_planned_bytes generated g in
      let after = archived_document s id d generated.0 in
      subst (IsArchiving s id expected p) (ok-injective h8) (record {
        before = d;
        bytes = bytes;
        generated = generated.0;
        metadata = metadata;
        relocation = record {
          found = is;
          locked = (require_revision_iff d id expected).0 locked;
          writable = writable;
          no_index = no_index;
          differs = differs;
          free = free;
          occupies = occupies;
          view = λ k.
              current-insert s.contents found.1 id after k
              ∙ ap (λ o. if id == k then some after else o) (same k);
        };
        typed = typed;
        placed = placed;
        source = b;
        made =
            subst
              (IsArchived s.crates s.policy bytes generated.0 (request s).request_id
                s.operation_time)
              made.spends made;
        decodes = map_err-eq-ok _ _ m;
        planned = refl;
        spent = sum ∙ ap (λ n. p.planned_bytes + n) made.spends;
        fits = fits;
      })
