-- ===== src/Core/Markdown/Assembly.antt =====
-- A document that is put together from front matter and a body.
use agent_knowledge.Prelude.{
  ℕ, ◌≤◌, ◌≡◌, refl, ap, ◌∙◌, true, some, [], ◌∷◌, ◌++◌, arith, length, ok, Bytes, text,
  strip_prefix, strip_prefix-append, is_utf8, list_beq,
}
use agent_knowledge.Core.Markdown.{
  split_inclusive, is_delimiter, strip_opening, or_else, front_matter_offset, markdown_body,
  extract_front_matter,
}
use agent_knowledge.Core.Markdown.Lines.{
  concat, concat-split_inclusive, EndsLine, split_inclusive-append, AreContent,
  front_matter_offset-append, Stop,
}
use agent_knowledge.Core.Markdown.Sections.{remainder_front, body_of}

abbrev pub delimiter_line : Bytes
delimiter_line = text "---\n"

abbrev pub assemble : Bytes → Bytes → Bytes
assemble yaml body = delimiter_line ++ (yaml ++ (delimiter_line ++ body))

-- Front matter that can be read back: whole lines, none of them a delimiter.
pub record IsFrontMatter (yaml : Bytes) : Type 0 where
  pub whole_lines : EndsLine yaml
  pub content : AreContent (split_inclusive yaml)

strip_opening-assemble :
    (yaml body : Bytes)
    → strip_opening (assemble yaml body) ≡ some (yaml ++ (delimiter_line ++ body))
unfolding strip_opening
strip_opening-assemble yaml body =
    ap (λ o. or_else o (strip_prefix (text "---\r\n") (assemble yaml body)))
      (strip_prefix-append delimiter_line (yaml ++ (delimiter_line ++ body)))

split_delimiter : split_inclusive delimiter_line ≡ delimiter_line ∷ []
unfolding split_inclusive
split_delimiter = refl

is_delimiter_line : is_delimiter delimiter_line ≡ true
unfolding is_delimiter list_beq
is_delimiter_line = refl

module _ (yaml body : Bytes) (f : IsFrontMatter yaml) where
  assembled_stop : Stop (split_inclusive (yaml ++ (delimiter_line ++ body)))
  assembled_stop = record {
    before = split_inclusive yaml;
    line = delimiter_line;
    after = split_inclusive body;
    split_lines =
        split_inclusive-append yaml (delimiter_line ++ body) f.whole_lines
        ∙ ap (λ ls. split_inclusive yaml ++ ls)
            (split_inclusive-append delimiter_line body refl
              ∙ ap (λ ls. ls ++ split_inclusive body) split_delimiter);
    content = f.content;
    delimiter = is_delimiter_line;
  }

  -- The front matter of an assembled document is the one that it was assembled from, where it is
  -- made of whole lines that are no delimiters and is within the limit.
  pub extract_front_matter-assemble :
      (maximum : ℕ)
      → length yaml ≤ maximum
      → extract_front_matter (assemble yaml body) maximum ≡ ok yaml
  unfolding extract_front_matter assembled_stop
  extract_front_matter-assemble maximum fits =
      let same = concat-split_inclusive yaml in
      let at : front_matter_offset maximum 0 (split_inclusive (yaml ++ (delimiter_line ++ body)))
          ≡ ok (length (concat (split_inclusive yaml))) =
        ap (front_matter_offset maximum 0) assembled_stop.split_lines
        ∙ front_matter_offset-append maximum 0 (split_inclusive yaml) (split_inclusive body)
            delimiter_line f.content is_delimiter_line (rw same (omega arith))
        ∙ ap ok (omega arith) in
      rw (strip_opening-assemble yaml body, at)
        (ap ok (remainder_front (yaml ++ (delimiter_line ++ body)) assembled_stop ∙ same))

  -- So is its body, where the document is UTF-8.
  pub markdown_body-assemble :
      is_utf8 (assemble yaml body) ≡ true → markdown_body (assemble yaml body) ≡ ok body
  unfolding assembled_stop
  markdown_body-assemble valid =
      body_of (assemble yaml body) (yaml ++ (delimiter_line ++ body)) assembled_stop valid
        (strip_opening-assemble yaml body)
      ∙ ap ok (concat-split_inclusive body)
