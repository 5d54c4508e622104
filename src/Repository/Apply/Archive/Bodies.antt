-- ===== src/Repository/Apply/Archive/Bodies.antt =====
-- The two ways to find the body of a document, in crates/core/src/markdown.rs and in
-- crates/repository/src/apply.rs.
use agent_knowledge.Prelude.{
  ℕ, ◌+◌, ◌≡◌, refl, sym, ap, ◌∙◌, subst, true, false, Option, none, some, List, [], ◌∷◌, ◌++◌,
  arith, nat_eq, list_eq, length, drop, Result, ok, err, ◌>>=◌, ok_or, Bytes, text, strip_prefix,
  strip_prefix-eq-some, is_utf8, Bool-cases, Option-cases, inl, inr,
}
use agent_knowledge.Core.Markdown
use agent_knowledge.Core.Markdown.{
  DocumentParseError, split_inclusive, is_delimiter, strip_opening, or_else, body_offset,
  decode_document_metadata,
}
use agent_knowledge.Repository.Apply.Archive.{
  opening_length, body_after, scan_body, body_behind, markdown_body,
}

abbrev pub to_option {ℓ κ} : {E : Type ℓ} {A : Type κ} → Result E A → Option A
to_option (ok a) = some a
to_option (err e) = none

pub to_option-eq-some {ℓ κ} :
    {E : Type ℓ} {A : Type κ} (r : Result E A) {a : A} → to_option r ≡ some a → r ≡ ok a
to_option-eq-some (ok b) h = cc
to_option-eq-some (err e) h = cc

scan_body-body_offset :
    (offset : ℕ) (lines : List Bytes)
    → scan_body offset lines ≡ to_option (body_offset offset lines)
unfolding scan_body body_offset
scan_body-body_offset offset [] = refl
scan_body-body_offset offset (l ∷ lines) =
    ground (arith, scan_body-body_offset (offset + length l) lines)

-- The text behind the opening line, by the length of that line.
abbrev opened : Bytes → Option ℕ → Option Bytes
opened m none = none
opened m (some n) = some (drop n m)

-- The two ways to find the opening line agree.
abbrev OpensAlike : Bytes → Type 0
OpensAlike m = opened m (opening_length m) ≡ strip_opening m

opens_crlf : (r : Bytes) → OpensAlike (text "---\r\n" ++ r)
unfolding opening_length strip_opening strip_prefix
opens_crlf r = refl

opens_lf : (r : Bytes) → OpensAlike (text "---\n" ++ r)
unfolding opening_length strip_opening strip_prefix
opens_lf r = refl

opens_neither :
    (m : Bytes)
    → strip_prefix (text "---\r\n") m ≡ none
    → strip_prefix (text "---\n") m ≡ none
    → OpensAlike m
unfolding opening_length strip_opening
opens_neither m e f = rw (e, f)

opened-opening_length : (m : Bytes) → OpensAlike m
opened-opening_length m = elim (Option-cases (strip_prefix (text "---\r\n") m)) [
  | inr (r, e) ↦ subst OpensAlike (sym (strip_prefix-eq-some _ m r e)) (opens_crlf r)
  | inl e ↦ elim (Option-cases (strip_prefix (text "---\n") m)) [
    | inr (r, f) ↦ subst OpensAlike (sym (strip_prefix-eq-some _ m r f)) (opens_lf r)
    | inl f ↦ opens_neither m e f
  ]
]

-- A body from a found text, in the two programs.
scanned : Option Bytes → Option Bytes
scanned none = none
scanned (some r) = body_behind r (scan_body 0 (split_inclusive r))

walked : Option Bytes → Result DocumentParseError Bytes
walked o = do
  remainder ← ok_or o Markdown.missing_opening_delimiter
  offset ← body_offset 0 (split_inclusive remainder)
  ok (drop offset remainder)

scanned-walked : (o : Option Bytes) → scanned o ≡ to_option (walked o)
unfolding scanned walked
scanned-walked none = refl
scanned-walked (some r) =
    rw (scan_body-body_offset 0 (split_inclusive r)) (go (body_offset 0 (split_inclusive r)))
  where
    go :
        (x : Result DocumentParseError ℕ)
        → body_behind r (to_option x) ≡ to_option (x >>= λ offset. ok (drop offset r))
    go (ok n) = refl
    go (err e) = refl

body_after-scanned : (m : Bytes) (o : Option ℕ) → body_after m o ≡ scanned (opened m o)
unfolding scanned
body_after-scanned m none = refl
body_after-scanned m (some n) = refl

markdown_body_of_utf8 :
    (m : Bytes) → is_utf8 m ≡ true → markdown_body m ≡ body_after m (opening_length m)
unfolding markdown_body
markdown_body_of_utf8 m valid = rw valid

walked_of_utf8 :
    (m : Bytes)
    → is_utf8 m ≡ true
    → to_option (walked (strip_opening m)) ≡ to_option (Markdown.markdown_body m)
unfolding Markdown.markdown_body walked
walked_of_utf8 m valid = rw valid

no_body : (m : Bytes) → is_utf8 m ≡ false → markdown_body m ≡ to_option (Markdown.markdown_body m)
unfolding Markdown.markdown_body markdown_body
no_body m invalid = rw invalid

-- The two functions that find the body of a document, in crates/core/src/markdown.rs and in
-- crates/repository/src/apply.rs, agree on every byte sequence.
pub markdown_body_agree : (m : Bytes) → markdown_body m ≡ to_option (Markdown.markdown_body m)
markdown_body_agree m = elim (Bool-cases (is_utf8 m)) [
  | inl valid ↦
      markdown_body_of_utf8 m valid
      ∙ body_after-scanned m (opening_length m)
      ∙ ap scanned (opened-opening_length m)
      ∙ scanned-walked (strip_opening m)
      ∙ walked_of_utf8 m valid
  | inr invalid ↦ no_body m invalid
]
