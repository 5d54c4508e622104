-- ===== src/Core/Markdown/Sections.antt =====
-- The two sections of a document: front matter and body.
use agent_knowledge.Prelude.{
  ℕ, ◌+◌, ◌≤◌, ◌≡◌, refl, sym, ap, ◌∙◌, subst, ◌⊎◌, inl, inr, true, some, ◌∷◌, ◌++◌, append_assoc,
  arith, nat_eq, list_eq, length, length-append, take, drop, take-append, drop-append, ok, Bytes,
  text, strip_prefix, is_utf8, >>=-eq-ok, ok_or, ok_or-eq-ok, Option-cases, strip_prefix-eq-some,
  ok-injective,
}
use agent_knowledge.Core.Markdown.{
  split_inclusive, is_delimiter, strip_opening, body_offset, front_matter_offset, markdown_body,
  extract_front_matter, missing_opening_delimiter,
}
use agent_knowledge.Core.Markdown.Lines.{
  concat, concat-append, concat-split_inclusive, body_offset-append, Stop,
  front_matter_offset_sound,
}

abbrev pub IsOpening : Bytes → Type 0
IsOpening o = (o ≡ text "---\n") ⊎ (o ≡ text "---\r\n")

strip_opening_sound :
    (m r : Bytes) → strip_opening m ≡ some r → (o : Bytes) × IsOpening o × (m ≡ o ++ r)
unfolding strip_opening
strip_opening_sound m r h = elim (Option-cases (strip_prefix (text "---\n") m)) [
  | inl missing ↦
      (text "---\r\n", inr refl, strip_prefix-eq-some (text "---\r\n") m r (rw missing at h))
  | inr (s, found) ↦
      (text "---\n", inl refl, strip_prefix-eq-some (text "---\n") m r (found ∙ (rw found at h)))
]

-- Front matter that was extracted, the delimiter behind it and the body behind that.
module _ (remainder : Bytes) (s : Stop (split_inclusive remainder)) where
  remainder_split : remainder ≡ concat s.before ++ (s.line ++ concat s.after)
  unfolding concat
  remainder_split =
      sym (concat-split_inclusive remainder)
      ∙ ap concat s.split_lines
      ∙ concat-append s.before (s.line ∷ s.after)

  pub remainder_front : take (length (concat s.before)) remainder ≡ concat s.before
  remainder_front =
      ap (take (length (concat s.before))) remainder_split
      ∙ take-append (concat s.before) (s.line ++ concat s.after)

  pub remainder_body : drop (length (concat s.before) + length s.line) remainder ≡ concat s.after
  remainder_body =
      ap (drop (length (concat s.before) + length s.line))
        (remainder_split ∙ sym (append_assoc (concat s.before) s.line (concat s.after)))
      ∙ subst (λ n. drop n ((concat s.before ++ s.line) ++ concat s.after) ≡ concat s.after)
          (length-append (concat s.before) s.line)
          (drop-append (concat s.before ++ s.line) (concat s.after))

  stop_body :
      body_offset 0 (split_inclusive remainder) ≡ ok (length (concat s.before) + length s.line)
  stop_body =
      ap (body_offset 0) s.split_lines
      ∙ body_offset-append 0 s.before s.after s.line s.content s.delimiter
      ∙ ap ok (omega arith)

-- A document cut into its opening line, front matter, closing line and body.
pub record IsCut (m yaml body : Bytes) : Type 0 where
  pub opening : Bytes
  pub closing : Bytes
  pub is_opening : IsOpening opening
  pub is_closing : is_delimiter closing ≡ true
  pub whole : m ≡ opening ++ (yaml ++ (closing ++ body))

pub body_of :
    (m remainder : Bytes) (s : Stop (split_inclusive remainder))
    → is_utf8 m ≡ true
    → strip_opening m ≡ some remainder
    → markdown_body m ≡ ok (concat s.after)
unfolding markdown_body
body_of m remainder s valid opened =
    rw (valid, opened, stop_body remainder s) (ap ok (remainder_body remainder s))

-- When the front matter of a UTF-8 document is extracted, the body is found too, the two and the
-- delimiter lines around the front matter make up the document byte for byte, and the front
-- matter is no longer than the limit.
pub extract_front_matter_cuts :
    (m : Bytes) (maximum : ℕ) (yaml : Bytes)
    → is_utf8 m ≡ true
    → extract_front_matter m maximum ≡ ok yaml
    → (body : Bytes) × (markdown_body m ≡ ok body) × IsCut m yaml body × (length yaml ≤ maximum)
unfolding extract_front_matter
extract_front_matter_cuts m maximum yaml valid h =
    let (remainder, opened, h') =
      >>=-eq-ok (ok_or (strip_opening m) missing_opening_delimiter) _ h in
    let (n, stopped, same) =
      >>=-eq-ok (front_matter_offset maximum 0 (split_inclusive remainder)) _ h' in
    let (s, at, fits) = front_matter_offset_sound maximum 0 (split_inclusive remainder) stopped in
    let (o, opening, whole) =
      strip_opening_sound m remainder (ok_or-eq-ok (strip_opening m) _ opened) in
    let at' : n ≡ length (concat s.before) = omega (arith, at) in
    let front : concat s.before ≡ yaml =
      sym (remainder_front remainder s)
      ∙ ap (λ k. take k remainder) (sym at')
      ∙ ok-injective same in
    (
      concat s.after,
      body_of m remainder s valid (ok_or-eq-ok (strip_opening m) _ opened),
      record {
        opening = o;
        closing = s.line;
        is_opening = opening;
        is_closing = s.delimiter;
        whole =
            whole
            ∙ ap (λ t. o ++ t)
                (remainder_split remainder s ∙ ap (λ t. t ++ (s.line ++ concat s.after)) front);
      },
      subst (λ t. length t ≤ maximum) front (omega (arith, at', fits)),
    )
