-- ===== src/Core/Path/Slugs.antt =====
-- Project slugs, by characters.
use agent_knowledge.Prelude.{
  ℕ, ◌≤◌, ◌≡◌, refl, ◌≢◌, ◌↔◌, ◌⊎◌, true, false, [], ◌∷◌, arith, ==_iff, nat_eq, list_eq, length,
  all, any, All, all-append, ok, Text, text, bytes, encode_char, is_control, starts_with_char,
  ends_with_char,
}
use agent_knowledge.Core.Path.{
  is_slug_byte, validate_project_id, parse_project_id, validate_component,
}

-- The characters a-z, 0-9 and the hyphen.
abbrev pub IsSlugChar : ℕ → Type 0
IsSlugChar c = ((b'a' ≤ c) × (c ≤ b'z')) ⊎ ((b'0' ≤ c) × (c ≤ b'9')) ⊎ (c ≡ b'-')

pub record IsSlug (v : Text) : Type 0 where
  pub nonempty : v ≢ []
  pub short : length v ≤ 63
  pub slug_chars : All IsSlugChar v
  pub no_leading_hyphen : starts_with_char b'-' v ≡ false
  pub no_trailing_hyphen : ends_with_char b'-' v ≡ false

is_slug_byte_iff : (c : ℕ) → (is_slug_byte c ≡ true) ↔ IsSlugChar c
is_slug_byte_iff c = ground arith

all-encode_char : (c : ℕ) → all is_slug_byte (encode_char c) ≡ is_slug_byte c
all-encode_char c = ground arith

all-bytes : (v : Text) → all is_slug_byte (bytes v) ≡ all is_slug_byte v
unfolding bytes
all-bytes [] = refl
all-bytes (c ∷ v) =
    ground
      (arith, all-append is_slug_byte (encode_char c) (bytes v), all-encode_char c, all-bytes v)

all_iff : (v : Text) → (all is_slug_byte v ≡ true) ↔ All IsSlugChar v
all_iff [] = ground arith
all_iff (c ∷ v) = ground (arith, is_slug_byte_iff c, all_iff v)

bytes_of_slug : (v : Text) → all is_slug_byte v ≡ true → bytes v ≡ v
unfolding bytes
bytes_of_slug [] h = refl
bytes_of_slug (c ∷ v) h = ground (arith, bytes_of_slug v)

validate_sound : (v : Text) → validate_project_id v ≡ ok tt → IsSlug v
unfolding validate_project_id
validate_sound [] h = cc
validate_sound (c ∷ v) h =
    let slug : all is_slug_byte (c ∷ v) ≡ true = ground (arith, all-bytes (c ∷ v)) in
    record {
      nonempty = λ e. cc;
      short = ground (arith, bytes_of_slug (c ∷ v) slug);
      slug_chars = (all_iff (c ∷ v)).0 slug;
      no_leading_hyphen = ground arith;
      no_trailing_hyphen = ground arith;
    }

validate_complete : (v : Text) → IsSlug v → validate_project_id v ≡ ok tt
unfolding validate_project_id
validate_complete [] s = absurd (s.nonempty refl)
validate_complete (c ∷ v) s =
    let slug : all is_slug_byte (c ∷ v) ≡ true = (all_iff (c ∷ v)).1 s.slug_chars in
    ground (
      arith,
      all-bytes (c ∷ v),
      bytes_of_slug (c ∷ v) slug,
      s.short,
      s.no_leading_hyphen,
      s.no_trailing_hyphen,
    )

-- A text is accepted as a project identifier exactly when it is a slug: 1 to 63 characters, each
-- one of a-z, 0-9 and the hyphen, with no hyphen at either end. The result is the text itself.
pub parse_project_id_iff : (v : Text) → (parse_project_id v ≡ ok v) ↔ IsSlug v
unfolding parse_project_id
parse_project_id_iff v =
    (λ h. validate_sound v (ground arith), λ s. ground (arith, validate_complete v s))

no_control : (v : Text) → all is_slug_byte v ≡ true → any is_control v ≡ false
no_control [] h = refl
no_control (c ∷ v) h = ground (arith, no_control v)

-- Every accepted project identifier is also accepted as one component of a path: it is not empty,
-- not "." or "..", at most 255 bytes long, and free of control characters.
pub validate_component-slug : (v : Text) → parse_project_id v ≡ ok v → validate_component v ≡ ok tt
unfolding validate_component
validate_component-slug v h = go v ((parse_project_id_iff v).0 h)
  where
    go : (v : Text) → IsSlug v → validate_component v ≡ ok tt
    go [] s = absurd (s.nonempty refl)
    go (c ∷ v) s =
        let slug : all is_slug_byte (c ∷ v) ≡ true = (all_iff (c ∷ v)).1 s.slug_chars in
        ground (
          arith,
          bytes_of_slug (c ∷ v) slug,
          no_control (c ∷ v) slug,
          ==_iff (c ∷ v) (text "."),
          ==_iff (c ∷ v) (text ".."),
          s.short,
        )
