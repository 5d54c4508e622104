-- ===== src/Core/Markdown.antt =====
-- crates/core/src/markdown.rs: the YAML front matter of a Markdown document, and its body. A document
-- is its bytes; the delimiters are ASCII, so that the bytes are walked as Rust walks the `str`.
pub mod Lines
pub mod Sections
pub mod Assembly
mod Tests
use agent_knowledge.Prelude.{
  ℕ, ◌+◌, Bool, not, Option, none, some, List, [], ◌∷◌, ltb, ◌==◌, nat_eq, list_eq, if◌then◌else◌,
  length, take, drop, Result, ok, err, ◌>>=◌, ◌>>◌, reject, map_err, ok_or, Bytes, text, cons_head,
  strip_prefix, is_utf8,
}
use agent_knowledge.Core.Document.{DocumentMetadata}

-- `serde_saphyr::Error` is a parameter of the section below, so its failures carry a code.
pub data DocumentParseError : Type 0 where
  invalid_utf8 missing_opening_delimiter missing_closing_delimiter : DocumentParseError
  front_matter_too_large : ℕ → ℕ → DocumentParseError
  invalid_yaml : ℕ → DocumentParseError

-- `split_inclusive('\n')`
unfoldable pub split_inclusive : Bytes → List Bytes
split_inclusive [] = []
split_inclusive (c ∷ s) =
    let rest = split_inclusive s in if c == b'\n' then (c ∷ []) ∷ rest else cons_head c rest

-- `strip_suffix(c).unwrap_or(line)`
unfoldable pub strip_last : ℕ → Bytes → Bytes
strip_last c [] = []
strip_last c (x ∷ []) = if x == c then [] else x ∷ []
strip_last c (x ∷ (y ∷ s)) = x ∷ strip_last c (y ∷ s)

-- `content == "---"`, of a line without its line end.
unfoldable pub is_delimiter : Bytes → Bool
unfolding strip_last
is_delimiter line = strip_last b'\r' (strip_last b'\n' line) == text "---"

abbrev pub or_else {ℓ} : {A : Type ℓ} → Option A → Option A → Option A
or_else none o = o
or_else (some a) o = some a

-- The text behind the opening delimiter.
unfoldable pub strip_opening : Bytes → Option Bytes
unfolding strip_prefix
strip_opening m = or_else (strip_prefix (text "---\n") m) (strip_prefix (text "---\r\n") m)

-- The loop of `markdown_body`: the offset behind the closing delimiter.
unfoldable pub body_offset : ℕ → List Bytes → Result DocumentParseError ℕ
body_offset offset [] = err missing_closing_delimiter
body_offset offset (line ∷ lines) =
    let rest = body_offset (offset + length line) lines in
    if is_delimiter line then ok (offset + length line) else rest

unfoldable pub markdown_body : Bytes → Result DocumentParseError Bytes
markdown_body m = do
  reject (not (is_utf8 m)) invalid_utf8
  remainder ← ok_or (strip_opening m) missing_opening_delimiter
  offset ← body_offset 0 (split_inclusive remainder)
  ok (drop offset remainder)

-- The loop of `extract_front_matter`: the offset of the closing delimiter.
unfoldable pub front_matter_offset : ℕ → ℕ → List Bytes → Result DocumentParseError ℕ
front_matter_offset maximum offset [] = err missing_closing_delimiter
front_matter_offset maximum offset (line ∷ lines) =
    let next = (offset + length line) in
    let rest =
      (reject (ltb maximum next) (front_matter_too_large maximum next)
        >> front_matter_offset maximum next lines) in
    if is_delimiter line
    then (reject (ltb maximum offset) (front_matter_too_large maximum offset) >> ok offset)
    else rest

unfoldable pub extract_front_matter : Bytes → ℕ → Result DocumentParseError Bytes
extract_front_matter m maximum = do
  remainder ← ok_or (strip_opening m) missing_opening_delimiter
  offset ← front_matter_offset maximum 0 (split_inclusive remainder)
  ok (take offset remainder)

-- `serde_saphyr::from_str_with_options`, whose options hold the same limit, is the argument `decode_yaml`.
unfoldable pub decode_document_metadata :
    (ℕ → Bytes → Result ℕ DocumentMetadata) → Bytes → ℕ → Result DocumentParseError DocumentMetadata
decode_document_metadata decode_yaml m maximum = do
  reject (not (is_utf8 m)) invalid_utf8
  yaml ← extract_front_matter m maximum
  map_err invalid_yaml (decode_yaml maximum yaml)
