-- ===== src/Core/Path.antt =====
-- crates/core/src/path.rs: project slugs, payload paths and attachment names. The three wrapper
-- structs hold the text that they validate, so each is a name for `Text`, and the parsers return
-- that text.
pub mod Slugs
pub mod Components
pub mod Traversal
mod Tests
use agent_knowledge.Prelude.{
  ℕ, Bool, ◌&&◌, ◌||◌, not, List, [], ◌∷◌, ltb, leb, ◌==◌, nat_eq, list_eq, all, any, is_empty,
  Result, ok, err, ◌>>=◌, ◌>>◌, reject, Text, text, bytes, byte_length, is_control,
  starts_with_char, ends_with_char, split,
}

abbrev pub ProjectId : Type 0
ProjectId = Text

abbrev pub PayloadPath : Type 0
PayloadPath = Text

abbrev pub AttachmentName : Type 0
AttachmentName = Text

abbrev pub max_path_length : ℕ
max_path_length = 4096

abbrev pub max_component_length : ℕ
max_component_length = 255

abbrev pub max_project_length : ℕ
max_project_length = 63

pub data PathValidationError : Type 0 where
  empty empty_component absolute traversal backslash separator : PathValidationError
  control_character hidden_component invalid_project_id : PathValidationError
  too_long : ℕ → ℕ → PathValidationError

abbrev pub Checked : Type 0
Checked = Result PathValidationError (Unit {0})

-- `is_ascii_lowercase() || is_ascii_digit() || == b'-'`
abbrev pub is_slug_byte : ℕ → Bool
is_slug_byte b = (leb b'a' b && leb b b'z') || (leb b'0' b && leb b b'9') || b == b'-'

unfoldable pub validate_project_id : Text → Checked
validate_project_id value = do
  reject (is_empty value) empty
  reject (ltb max_project_length (byte_length value))
      (too_long max_project_length (byte_length value))
  reject (starts_with_char b'-' value || ends_with_char b'-' value) invalid_project_id
  reject (not (all is_slug_byte (bytes value))) invalid_project_id

unfoldable pub validate_component : Text → Checked
validate_component value = do
  reject (is_empty value) empty_component
  reject (value == text "." || value == text "..") traversal
  reject (ltb max_component_length (byte_length value))
      (too_long max_component_length (byte_length value))
  reject (any is_control value) control_character

-- The loop over `value.split('/')`.
unfoldable pub validate_components : List Text → Checked
validate_components [] = ok tt
validate_components (part ∷ parts) = validate_component part >> validate_components parts

unfoldable pub validate_relative_path : Text → Checked
unfolding validate_components validate_component
validate_relative_path value = do
  reject (is_empty value) empty
  reject (ltb max_path_length (byte_length value)) (too_long max_path_length (byte_length value))
  reject (starts_with_char b'/' value) absolute
  reject (any (λ c. c == b'\\') value) backslash
  validate_components (split b'/' value)

unfoldable pub parse_project_id : Text → Result PathValidationError ProjectId
unfolding validate_project_id
parse_project_id value = do validate_project_id value; ok value

unfoldable pub parse_payload_path : Text → Result PathValidationError PayloadPath
unfolding validate_relative_path
parse_payload_path value = do validate_relative_path value; ok value

unfoldable pub parse_attachment_name : Text → Result PathValidationError AttachmentName
unfolding validate_component
parse_attachment_name value = do
  reject (any (λ c. c == b'/' || c == b'\\') value) separator
  validate_component value
  reject (starts_with_char b'.' value) hidden_component
  ok value
