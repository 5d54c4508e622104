-- ===== src/Repository/Apply/Archive/Sound.antt =====
-- What the archiving of a document makes, and that its body survives.
use agent_knowledge.Prelude.{
  ℕ, ◌+◌, ◌≤◌, ◌≡◌, refl, sym, ap, ◌∙◌, subst, true, false, some, [], ◌∷◌, ◌++◌, arith, nat_eq,
  list_eq, length, length-append, Result, ok, ok_or, map_err, >>=-eq-ok, reject-eq-ok, ok_or-eq-ok,
  map_err-eq-ok, Bytes, text, is_utf8, ltb,
}
use agent_knowledge.Core.Time.{OffsetDateTime, is_at_most}
use agent_knowledge.Core.Id.{RequestId}
use agent_knowledge.Core.Document.{DocumentMetadata}
use agent_knowledge.Core.Markdown
use agent_knowledge.Core.Markdown.{extract_front_matter, decode_document_metadata}
use agent_knowledge.Core.Markdown.Assembly.{
  IsFrontMatter, extract_front_matter-assemble, markdown_body-assemble,
}
use agent_knowledge.Repository.Index.{Crates, ContentPolicy}
use agent_knowledge.Repository.Apply.{
  checked_add, reserve_planned_bytes, content_changed_during_apply, metadata_encoding,
}
use agent_knowledge.Repository.Apply.Archive.{
  markdown_body, previous_update, with_newline, missing_newline, archived_size, archived_metadata,
  archived_markdown,
}
use agent_knowledge.Repository.Apply.Archive.Bodies.{to_option-eq-some, markdown_body_agree}

-- The counter grows by what is reserved, and stays within the limit.
pub reserve_planned_bytes_sound :
    (total additional maximum : ℕ) {next : ℕ}
    → reserve_planned_bytes total additional maximum ≡ ok next
    → (next ≡ total + additional) × (next ≤ maximum)
unfolding reserve_planned_bytes
reserve_planned_bytes_sound total additional maximum h = ground arith

length-with_newline :
    (yaml : Bytes) → length (with_newline yaml) ≡ length yaml + missing_newline yaml
length-with_newline yaml = ground (arith, length-append yaml (b'\n' ∷ []))

archived_size_sound :
    (policy : ContentPolicy) (yaml body : Bytes) {n : ℕ}
    → archived_size policy yaml body ≡ ok n
    → (n ≡ length (with_newline yaml) + length body + 8)
      × (n ≤ policy.maximum_markdown_bytes)
      × (length (with_newline yaml) ≤ policy.maximum_front_matter_bytes)
unfolding archived_size checked_add
archived_size_sound policy yaml body h = ground (arith, length-with_newline yaml)

-- What a successful archiving has found and made.
pub record IsArchived (crates : Crates) (policy : ContentPolicy) (before after : Bytes)
    (request : RequestId) (time : OffsetDateTime) (spent : ℕ) : Type 0 where
  pub body : Bytes
  pub yaml : Bytes
  pub metadata : DocumentMetadata
  pub decoded :
      decode_document_metadata crates.decode_yaml before policy.maximum_front_matter_bytes
      ≡ ok metadata
  pub encoded : crates.encode_yaml (archived_metadata metadata request time) ≡ ok yaml
  pub later : is_at_most time (previous_update metadata.updated metadata.created) ≡ false
  pub found : markdown_body before ≡ some body
  pub made : after ≡ text "---\n" ++ (with_newline yaml ++ (text "---\n" ++ body))
  pub front_within : length (with_newline yaml) ≤ policy.maximum_front_matter_bytes
  pub within : length after ≤ policy.maximum_markdown_bytes
  pub spends : spent ≡ length after

-- What the archiving relies on of serde_saphyr: that the front matter it prints is whole lines, none
-- of them a delimiter, and that where a reading of it within some limit succeeds, what is read is what
-- was printed.
pub record IsYaml (crates : Crates) : Type 0 where
  pub printed :
      (m : DocumentMetadata) (yaml : Bytes)
      → crates.encode_yaml m ≡ ok yaml
      → IsFrontMatter (with_newline yaml)
  pub read :
      (m found : DocumentMetadata) (yaml : Bytes) (maximum : ℕ)
      → crates.encode_yaml m ≡ ok yaml
      → crates.decode_yaml maximum (with_newline yaml) ≡ ok found
      → found ≡ m

-- A document that is decoded is UTF-8, and its metadata are those of its front matter.
decoded_front_matter :
    (decode_yaml : ℕ → Bytes → Result ℕ DocumentMetadata) (m yaml : Bytes) (maximum : ℕ)
    {d : DocumentMetadata}
    → decode_document_metadata decode_yaml m maximum ≡ ok d
    → extract_front_matter m maximum ≡ ok yaml
    → (is_utf8 m ≡ true) × (decode_yaml maximum yaml ≡ ok d)
unfolding decode_document_metadata
decoded_front_matter decode_yaml m yaml maximum h front = ground arith

module _ (crates : Crates) (policy : ContentPolicy) (bytes : Bytes) (request : RequestId)
    (time : OffsetDateTime) (planned maximum : ℕ) where
  pub archived_markdown_sound :
      (made : Bytes × ℕ)
      → archived_markdown crates policy bytes request time planned maximum ≡ ok made
      → (spent : ℕ) × IsArchived crates policy bytes made.0 request time spent
        × (made.1 ≡ planned + spent)
        × (made.1 ≤ maximum)
  unfolding archived_markdown
  archived_markdown_sound made h =
      let (small, h1) =
        reject-eq-ok (ltb policy.maximum_markdown_bytes (length bytes)) content_changed_during_apply
          _ h in
      let (m, e, h2) =
        >>=-eq-ok
          (map_err (λ _. content_changed_during_apply)
            (decode_document_metadata crates.decode_yaml bytes policy.maximum_front_matter_bytes))
          _ h1 in
      let (late, h3) =
        reject-eq-ok (is_at_most time (previous_update m.updated m.created)) _ _ h2 in
      let (body, b, h4) =
        >>=-eq-ok (ok_or (markdown_body bytes) content_changed_during_apply) _ h3 in
      let (yaml, y, h5) =
        >>=-eq-ok
          (map_err metadata_encoding (crates.encode_yaml (archived_metadata m request time))) _
          h4 in
      let (size, z, h6) = >>=-eq-ok (archived_size policy yaml body) _ h5 in
      let (next, r, h7) = >>=-eq-ok (reserve_planned_bytes planned size maximum) _ h6 in
      let (total, small_size, small_front) = archived_size_sound policy yaml body z in
      let (sum, fits) = reserve_planned_bytes_sound planned size maximum r in
      let same : (text "---\n" ++ (with_newline yaml ++ (text "---\n" ++ body)), next) ≡ made =
        cc in
      let count : length (text "---\n" ++ (with_newline yaml ++ (text "---\n" ++ body))) ≡ size =
        ground (arith, length-append (with_newline yaml) (text "---\n" ++ body)) in
      subst
        (λ made.
          (spent : ℕ) × IsArchived crates policy bytes made.0 request time spent
          × (made.1 ≡ planned + spent)
          × (made.1 ≤ maximum))
        same
        (
          size,
          record {
            body = body;
            yaml = yaml;
            metadata = m;
            decoded = map_err-eq-ok _ _ e;
            encoded = map_err-eq-ok _ _ y;
            later = late;
            found = ok_or-eq-ok _ _ b;
            made = refl;
            front_within = small_front;
            within = omega (arith, count, small_size);
            spends = sym count;
          },
          sum,
          fits,
        )

  -- Where the YAML library, if it reads what it has printed, reads what was printed, archiving keeps the document: if the generated
  -- text decodes, as the plan checks, then its metadata are the document's with the archived status,
  -- the archiving request and its time, and its body is the document's body.
  pub archived_markdown-keeps :
      (y : IsYaml crates) (made : Bytes × ℕ)
      → archived_markdown crates policy bytes request time planned maximum ≡ ok made
      → (after : DocumentMetadata)
      → decode_document_metadata crates.decode_yaml made.0 policy.maximum_front_matter_bytes
        ≡ ok after
      → (before : DocumentMetadata) × (decode_document_metadata crates.decode_yaml bytes
            policy.maximum_front_matter_bytes
          ≡ ok before)
        × (after ≡ archived_metadata before request time)
        × (Markdown.markdown_body made.0 ≡ Markdown.markdown_body bytes)
  archived_markdown-keeps y made h after decoded =
      let (spent, a, sum, fits) = archived_markdown_sound made h in
      let f = y.printed _ a.yaml a.encoded in
      let again =
        subst
          (λ t.
            decode_document_metadata crates.decode_yaml t policy.maximum_front_matter_bytes
            ≡ ok after)
          a.made decoded in
      let (valid, same) =
        decoded_front_matter crates.decode_yaml _ (with_newline a.yaml)
          policy.maximum_front_matter_bytes again
          (extract_front_matter-assemble (with_newline a.yaml) a.body f
            policy.maximum_front_matter_bytes a.front_within) in
      (
        a.metadata,
        a.decoded,
        y.read _ after a.yaml policy.maximum_front_matter_bytes a.encoded same,
        ap Markdown.markdown_body a.made
            ∙ markdown_body-assemble (with_newline a.yaml) a.body f valid
            ∙ sym (
                to_option-eq-some (Markdown.markdown_body bytes)
                  (sym (markdown_body_agree bytes) ∙ a.found)),
      )
