-- ===== src/Repository/Apply/Plan/Histories.antt =====
-- What a whole plan may do to a document.
use agent_knowledge.Prelude.{
  ◌≡◌, refl, sym, ◌∙◌, subst, ◌⊎◌, Option, none, some, Bytes, List, [], ◌∷◌, arith, ◌==◌, ==_iff,
  list_eq, nat_eq, ok, >>=-eq-ok, if◌then◌else◌, Bool-cases, inl, inr,
}
use agent_knowledge.Core.Id.{DocumentId}
use agent_knowledge.Core.Request.{
  Operation, create_document, update_document, move_document, archive_document, add_attachment,
}
use agent_knowledge.Repository.Apply.{VirtualDocument}
use agent_knowledge.Repository.Apply.Guards.{IsWritable, current}
use agent_knowledge.Repository.Apply.Plan.{Setting, Planning, plan_operation, plan_operations}
use agent_knowledge.Repository.Apply.Plan.Updates.{Carries, plan_update_sound}
use agent_knowledge.Repository.Apply.Plan.Moves.{IsRelocation, plan_move_sound, plan_archive_sound}
use agent_knowledge.Repository.Apply.Plan.Additions.{
  IsCreation, plan_create_sound, plan_attachment_sound,
}

-- A text that is planned for a document was planned for it before, or its front matter gives this
-- creation time.
abbrev pub IsTextOf : Setting → VirtualDocument → Option Bytes → Type 0
IsTextOf s d none = Unit
IsTextOf s d (some bytes) = (d.markdown ≡ some bytes) ⊎ Carries s bytes d.created

-- What may become of a document: it keeps its creation time, also in a text that is planned for it,
-- and where it is not writable it stays as it is.
pub record Evolves (s : Setting) (d d' : VirtualDocument) : Type 0 where
  pub same_created : d'.created ≡ d.created
  pub same_created_text : IsTextOf s d d'.markdown
  pub frozen : ¬ IsWritable d → d' ≡ d

IsTextOf-refl : (s : Setting) (d : VirtualDocument) → IsTextOf s d d.markdown
IsTextOf-refl s d = known d.markdown refl
  where
    known : (o : Option Bytes) → d.markdown ≡ o → IsTextOf s d o
    known none e = tt
    known (some bytes) e = inl e

IsTextOf-trans :
    (s : Setting) (a b : VirtualDocument) (o : Option Bytes)
    → b.created ≡ a.created
    → IsTextOf s a b.markdown
    → IsTextOf s b o
    → IsTextOf s a o
IsTextOf-trans s a b none e f g = tt
IsTextOf-trans s a b (some bytes) e f (inl q) = subst (IsTextOf s a) q f
IsTextOf-trans s a b (some bytes) e f (inr c) = inr (subst (Carries s bytes) e c)

Evolves-refl : (s : Setting) (d : VirtualDocument) → Evolves s d d
Evolves-refl s d = record {
  same_created = refl;
  same_created_text = IsTextOf-refl s d;
  frozen = λ n. refl;
}

Evolves-trans :
    (s : Setting) (a b c : VirtualDocument) → Evolves s a b → Evolves s b c → Evolves s a c
Evolves-trans s a b c f g = record {
  same_created = g.same_created ∙ f.same_created;
  same_created_text =
      IsTextOf-trans s a b c.markdown f.same_created f.same_created_text g.same_created_text;
  frozen = λ n. g.frozen (subst (λ d. ¬ IsWritable d) (sym (f.frozen n)) n) ∙ f.frozen n;
}

module _ (s : Setting) where
  -- Each document of the first state is in the second, and has evolved.
  abbrev pub Preserves : Planning → Planning → Type 0
  Preserves p p' =
      (k : DocumentId) (d : VirtualDocument)
      → current s.contents p.documents k ≡ some d
      → (d' : VirtualDocument) × (current s.contents p'.documents k ≡ some d') × Evolves s d d'

  -- One document is changed.
  Preserves-others :
      (p p' : Planning) (id : DocumentId) (before after : VirtualDocument)
      → current s.contents p.documents id ≡ some before
      → Evolves s before after
      → ((k : DocumentId)
          → current s.contents p'.documents k
            ≡ (if id == k then some after else current s.contents p.documents k))
      → Preserves p p'
  Preserves-others p p' id before after found e view k d is = elim (Bool-cases (id == k)) [
    | inl same ↦ (
      after,
      view k ∙ rw same refl,
      subst (λ d. Evolves s d after) (ground (arith, ==_iff id k)) e,
    )
    | inr other ↦ (d, view k ∙ rw other is, Evolves-refl s d)
  ]

  created-Preserves : (p p' : Planning) (id : DocumentId) → IsCreation s id p p' → Preserves p p'
  created-Preserves p p' id c k d is = elim (Bool-cases (id == k)) [
    | inl same ↦ ground (arith, ==_iff id k, c.fresh)
    | inr other ↦ (d, c.view k ∙ rw other is, Evolves-refl s d)
  ]

  relocation-Preserves :
      (p p' : Planning) (id : DocumentId) {expected : _} (before after : VirtualDocument)
      → after.created ≡ before.created
      → IsTextOf s before after.markdown
      → IsRelocation s id expected p p' before after
      → Preserves p p'
  relocation-Preserves p p' id before after same text r =
      Preserves-others p p' id before after r.found
        (record {
          same_created = same;
          same_created_text = text;
          frozen = λ n. elim (n r.writable) [ ];
        })
        r.view

  plan_operation-Preserves :
      (op : Operation) (p p' : Planning) → plan_operation s op p ≡ ok p' → Preserves p p'
  unfolding plan_operation
  plan_operation-Preserves (create_document id content) p p' h =
      created-Preserves p p' id (plan_create_sound s id p p' content h)
  plan_operation-Preserves (update_document id expected content) p p' h =
      let u = plan_update_sound s id expected content p p' h in
      Preserves-others p p' id u.before _ u.found
        (record {
          same_created = refl;
          same_created_text = inr u.carries;
          frozen = λ n. elim (n u.writable) [ ];
        })
        u.view
  plan_operation-Preserves (move_document id expected project t) p p' h =
      let m = plan_move_sound s id expected p p' project t h in
      relocation-Preserves p p' id m.before _ refl (IsTextOf-refl s m.before) m.relocation
  plan_operation-Preserves (archive_document id expected) p p' h =
      relocation-Preserves p p' id _ _ refl tt (plan_archive_sound s id expected p p' h).relocation
  plan_operation-Preserves (add_attachment id source name) p p' h =
      let a = plan_attachment_sound s id p p' source name h in
      λ k d is. (d, a.view k ∙ is, Evolves-refl s d)

  -- Planning any sequence of operations loses no document, and leaves a document that is archived, is a
  -- log, or is not active exactly as it was: its path, class, status, times, revision and text. It does
  -- not change the creation time that later updates are compared with, and a text that it holds for
  -- the document, where it did not hold it before, decodes with a creation time of the same instant. The
  -- text that an archiving generates is not among these.
  pub plan_operations-Preserves :
      (ops : List Operation) (p p' : Planning)
      → plan_operations s ops p ≡ ok p'
      → (k : DocumentId) (d : VirtualDocument) → current s.contents p.documents k ≡ some d
      → (d' : VirtualDocument) × (current s.contents p'.documents k ≡ some d') × Evolves s d d'
  unfolding plan_operations
  plan_operations-Preserves [] p p' h k d is = (d, ground arith, Evolves-refl s d)
  plan_operations-Preserves (op ∷ ops) p p' h k d is =
      let (q, e, h1) = >>=-eq-ok (plan_operation s op p) _ h in
      let (d1, is1, f) = plan_operation-Preserves op p q e k d is in
      let (d2, is2, g) = plan_operations-Preserves ops q p' h1 k d1 is1 in
      (d2, is2, Evolves-trans s d d1 d2 f g)
