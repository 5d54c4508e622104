-- ===== src/Repository/Apply/Tests.antt =====
-- The guards, the reservations and the generated text of the sample.
use agent_knowledge.Prelude.{
  ℕ, ◌≡◌, ◌≢◌, refl, sym, true, false, some, [], ◌∷◌, ◌∙◌, arith, ◌==◌, nat_eq, list_eq, ok, err,
  ltb, Bool-cases, inl, inr, if◌then◌else◌, subst, Bytes, text, is_utf8, list_beq, option_beq,
  strip_prefix, lookup,
}
use agent_knowledge.Core.Document.{DocumentMetadata}
use agent_knowledge.Core.Markdown
use agent_knowledge.Core.Markdown.{
  decode_document_metadata, extract_front_matter, front_matter_offset, split_inclusive,
  is_delimiter, strip_opening,
}
use agent_knowledge.Core.Markdown.Assembly.{IsFrontMatter}
use agent_knowledge.Repository.Layout.{RelativePath}
use agent_knowledge.Repository.Apply.{reserve_planned_bytes, checked_add}
use agent_knowledge.Repository.Apply.Occupancy.{Entries, is_occupied, reserve, move_path}
use agent_knowledge.Repository.Apply.Occupancy.Laws.{occupied, move_path_sound}
use agent_knowledge.Repository.Apply.Archive.{
  with_newline, archived_metadata, archived_markdown, archived_size, markdown_body, opening_length,
  scan_body,
}
use agent_knowledge.Repository.Apply.Archive.Bodies.{to_option, markdown_body_agree}
use agent_knowledge.Repository.Apply.Archive.Sound.{IsYaml, archived_markdown-keeps}
use agent_knowledge.Repository.Apply.Plan.Sample.{
  crates, files, policy, later, first_text, archived_text, archived_notes, metadata_beq,
  metadata_beq_sound, time_beq,
}

abbrev here : RelativePath
here = text "a" ∷ []

abbrev there : RelativePath
there = text "b" ∷ []

abbrev reserved : Entries
reserved = (there, true) ∷ ((there, false) ∷ [])

reserves : reserve files [] there ≡ ok reserved
unfolding reserve is_occupied lookup list_beq
reserves = refl

moves : move_path files [] here there ≡ ok ((here, false) ∷ reserved)
unfolding move_path reserve is_occupied lookup list_beq
moves = refl

move_path_sound_example :
    (here ≢ there)
    × (occupied files [] there ≡ some false)
    × ((q : RelativePath)
        → occupied files ((here, false) ∷ reserved) q ≡ (
            if here == q
            then some false
            else if there == q
            then some true
            else occupied files [] q))
move_path_sound_example = move_path_sound files [] here there ((here, false) ∷ reserved) moves

markdown_body_agree_example :
    markdown_body first_text ≡ to_option (Markdown.markdown_body first_text)
markdown_body_agree_example = markdown_body_agree first_text

known_metadata :
    (m : DocumentMetadata) (yaml : Bytes)
    → crates.encode_yaml m ≡ ok yaml
    → (m ≡ archived_notes) × (text "c\n" ≡ yaml)
known_metadata m yaml h = ground (arith, metadata_beq_sound m archived_notes)

third_IsFrontMatter : IsFrontMatter (with_newline (text "c\n"))
unfolding split_inclusive is_delimiter list_beq
third_IsFrontMatter = record { whole_lines = refl; content = (refl, tt) }

reads :
    (maximum : ℕ) (found : DocumentMetadata)
    → crates.decode_yaml maximum (with_newline (text "c\n")) ≡ ok found
    → found ≡ archived_notes
unfolding list_beq
reads maximum found h = elim (Bool-cases (ltb maximum 2)) [
  | inl small ↦ ground arith
  | inr large ↦ ground arith
]

-- The limit of the decoder is kept to.
reads_limited :
    (crates.decode_yaml 1 (text "c\n") ≡ err 1)
    × (crates.decode_yaml 2 (text "c\n") ≡ ok archived_notes)
unfolding list_beq
reads_limited = (refl, refl)

sample_IsYaml : IsYaml crates
sample_IsYaml = record {
  printed = λ m yaml h.
      subst (λ y. IsFrontMatter (with_newline y)) (known_metadata m yaml h).1 third_IsFrontMatter;
  read = λ m found yaml maximum h k.
      reads maximum found (
        subst (λ y. crates.decode_yaml maximum (with_newline y) ≡ ok found)
          (sym (known_metadata m yaml h).1) k)
      ∙ sym (known_metadata m yaml h).0;
}

archives : archived_markdown crates policy first_text 9 (later 500) 0 100 ≡ ok (archived_text, 13)
unfolding archived_markdown archived_size checked_add reserve_planned_bytes decode_document_metadata
    extract_front_matter front_matter_offset split_inclusive is_delimiter strip_opening strip_prefix
    is_utf8 list_beq markdown_body opening_length scan_body metadata_beq time_beq option_beq
archives = refl

decodes : decode_document_metadata crates.decode_yaml archived_text 100 ≡ ok archived_notes
unfolding decode_document_metadata extract_front_matter front_matter_offset split_inclusive
    is_delimiter strip_opening strip_prefix is_utf8 list_beq
decodes = refl

archived_markdown-keeps_example :
    (before : DocumentMetadata) × (decode_document_metadata crates.decode_yaml first_text 100
      ≡ ok before)
    × (archived_notes ≡ archived_metadata before 9 (later 500))
    × (Markdown.markdown_body archived_text ≡ Markdown.markdown_body first_text)
archived_markdown-keeps_example =
    archived_markdown-keeps crates policy first_text 9 (later 500) 0 100 sample_IsYaml
      (archived_text, 13) archives archived_notes decodes
