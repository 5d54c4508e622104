-- ===== src/Repository/Apply/Archive.antt =====
-- The generated text of an archived document, of crates/repository/src/apply.rs: the body of the
-- document under new front matter. Numbers are 64-bit words.
pub mod Bodies
pub mod Sound
use agent_knowledge.Prelude.{
  ℕ, ◌+◌, Bool, true, false, not, Option, none, some, List, [], ◌∷◌, ◌++◌, ◌==◌, nat_eq, list_eq,
  ltb, leb, if◌then◌else◌, length, drop, ends_with_char, Result, ok, err, ◌>>=◌, ◌>>◌, reject,
  ok_or, map_err, Bytes, Text, text, strip_prefix, is_utf8,
}
use agent_knowledge.Core.Time.{OffsetDateTime, is_at_most}
use agent_knowledge.Core.Id.{RequestId}
use agent_knowledge.Core.Document.{DocumentMetadata, archived}
use agent_knowledge.Core.Markdown.{
  front_matter_too_large, split_inclusive, is_delimiter, decode_document_metadata,
}
use agent_knowledge.Repository.Index.{Crates, ContentPolicy}
use agent_knowledge.Repository.Apply.{
  ApplyError, content_changed_during_apply, operation_forbidden, metadata_encoding,
  planning_bytes_exceeded, generated_document, checked_add, reserve_planned_bytes,
}

abbrev pub starts_with : Text → Bytes → Bool
starts_with p s = elim (strip_prefix p s) [ none ↦ false | some r ↦ true ]

unfoldable pub opening_length : Bytes → Option ℕ
opening_length m =
    if starts_with (text "---\r\n") m
    then some 5
    else if starts_with (text "---\n") m
    then some 4
    else none

-- The loop of `markdown_body`.
unfoldable pub scan_body : ℕ → List Bytes → Option ℕ
scan_body offset [] = none
scan_body offset (line ∷ lines) =
    let rest = scan_body (offset + length line) lines in
    if is_delimiter line then some (offset + length line) else rest

abbrev pub body_behind : Bytes → Option ℕ → Option Bytes
body_behind remainder none = none
body_behind remainder (some offset) = some (drop offset remainder)

-- The part behind the opening line.
abbrev pub body_after : Bytes → Option ℕ → Option Bytes
body_after m none = none
body_after m (some n) = body_behind (drop n m) (scan_body 0 (split_inclusive (drop n m)))

-- The second `markdown_body` of the repository, beside that of crates/core/src/markdown.rs.
unfoldable pub markdown_body : Bytes → Option Bytes
markdown_body m = if is_utf8 m then body_after m (opening_length m) else none

abbrev pub previous_update : Option OffsetDateTime → OffsetDateTime → OffsetDateTime
previous_update none created = created
previous_update (some updated) created = updated

abbrev pub missing_newline : Bytes → ℕ
missing_newline yaml = if ends_with_char b'\n' yaml then 0 else 1

-- The front matter with a newline at its end.
abbrev pub with_newline : Bytes → Bytes
with_newline yaml = if ends_with_char b'\n' yaml then yaml else yaml ++ (b'\n' ∷ [])

-- The sizes that are checked: the front matter alone, and the whole document.
unfoldable pub archived_size : ContentPolicy → Bytes → Bytes → Result ApplyError ℕ
archived_size policy yaml body = do
  front ←
      ok_or (checked_add (length yaml) (missing_newline yaml))
        (planning_bytes_exceeded policy.maximum_markdown_bytes)
  reject (ltb policy.maximum_front_matter_bytes front)
      (generated_document (front_matter_too_large policy.maximum_front_matter_bytes front))
  sum ←
      ok_or (checked_add front (length body))
        (planning_bytes_exceeded policy.maximum_markdown_bytes)
  size ← ok_or (checked_add sum 8) (planning_bytes_exceeded policy.maximum_markdown_bytes)
  reject (ltb policy.maximum_markdown_bytes size)
      (planning_bytes_exceeded policy.maximum_markdown_bytes)
  ok size

abbrev pub archived_metadata : DocumentMetadata → RequestId → OffsetDateTime → DocumentMetadata
archived_metadata m request archived_at = record m {
  updated = some archived_at;
  request_id = request;
  status = archived;
}

-- The text, and the planned bytes with it.
unfoldable pub archived_markdown :
    Crates
    → ContentPolicy
    → Bytes
    → RequestId
    → OffsetDateTime
    → ℕ
    → ℕ
    → Result ApplyError (Bytes × ℕ)
archived_markdown crates policy bytes request archived_at planned_bytes maximum_planned_bytes = do
  reject (ltb policy.maximum_markdown_bytes (length bytes)) content_changed_during_apply
  m ←
      map_err (λ _. content_changed_during_apply)
        (decode_document_metadata crates.decode_yaml bytes policy.maximum_front_matter_bytes)
  reject (is_at_most archived_at (previous_update m.updated m.created)) (
      operation_forbidden m.document_id
        (text "archive time must follow the previous document update"))
  body ← ok_or (markdown_body bytes) content_changed_during_apply
  yaml ← map_err metadata_encoding (crates.encode_yaml (archived_metadata m request archived_at))
  size ← archived_size policy yaml body
  planned ← reserve_planned_bytes planned_bytes size maximum_planned_bytes
  ok (text "---\n" ++ (with_newline yaml ++ (text "---\n" ++ body)), planned)
