-- ===== src/Core/Path/Components.antt =====
-- Payload paths and attachment names, by components.
use agent_knowledge.Prelude.{
  ℕ, ◌≤◌, ◌<◌, ◌≡◌, refl, ◌≢◌, ◌↔◌, ◌⊎◌, false, List, [], ◌∷◌, arith, ==_iff, ◌==◌, nat_eq, list_eq,
  any, All, ok, Text, text, byte_length, is_control, starts_with_char, split, join, Lacks,
  join-split, split-Lacks, split-ne-nil, split-join,
}
use agent_knowledge.Core.Path.{
  validate_component, validate_components, validate_relative_path, parse_payload_path,
}

abbrev pub IsControl : ℕ → Type 0
IsControl c = (c < 32) ⊎ ((0x7F ≤ c) × (c ≤ 0x9F))

-- A name of an entry inside a directory.
pub record IsComponent (p : Text) : Type 0 where
  pub nonempty : p ≢ []
  pub not_current : p ≢ text "."
  pub not_parent : p ≢ text ".."
  pub short : byte_length p ≤ 255
  pub printable : All (λ c. ¬ IsControl c) p

no-IsControl_iff : (p : Text) → (any is_control p ≡ false) ↔ All (λ c. ¬ IsControl c) p
no-IsControl_iff [] = ground arith
no-IsControl_iff (c ∷ p) = ground (arith, no-IsControl_iff p)

pub validate_component_iff : (p : Text) → (validate_component p ≡ ok tt) ↔ IsComponent p
unfolding validate_component
validate_component_iff [] = (λ h. cc, λ k. absurd (k.nonempty refl))
validate_component_iff (c ∷ p) = (
  λ h. record {
    nonempty = λ e. cc;
    not_current = ground (arith, ==_iff (c ∷ p) (text "."));
    not_parent = ground (arith, ==_iff (c ∷ p) (text ".."));
    short = ground arith;
    printable = (no-IsControl_iff (c ∷ p)).0 (ground arith);
  },
  λ k. ground (
    arith,
    ==_iff (c ∷ p) (text "."),
    ==_iff (c ∷ p) (text ".."),
    k.not_current,
    k.not_parent,
    k.short,
    (no-IsControl_iff (c ∷ p)).1 k.printable,
  ),
)

pub validate_components_iff :
    (ps : List Text) → (validate_components ps ≡ ok tt) ↔ All IsComponent ps
unfolding validate_components
validate_components_iff [] = (λ _. tt, λ _. refl)
validate_components_iff (p ∷ ps) =
    ground (arith, validate_component_iff p, validate_components_iff ps)

-- A text that joins one or more components by single slashes.
pub record IsPayloadPath (v : Text) : Type 0 where
  pub parts : List Text
  pub some_parts : parts ≢ []
  pub joined : join b'/' parts ≡ v
  pub components : All IsComponent parts
  pub no_slash : All (Lacks b'/') parts
  pub no_backslash : any (λ c. c == b'\\') v ≡ false
  pub short : byte_length v ≤ 4096

sound : (v : Text) → validate_relative_path v ≡ ok tt → IsPayloadPath v
unfolding validate_relative_path
sound [] h = cc
sound (c ∷ v) h = record {
  parts = split b'/' (c ∷ v);
  some_parts = split-ne-nil b'/' (c ∷ v);
  joined = join-split b'/' (c ∷ v);
  components = (validate_components_iff (split b'/' (c ∷ v))).0 (ground arith);
  no_slash = split-Lacks b'/' (c ∷ v);
  no_backslash = ground arith;
  short = ground arith;
}

-- The text that joins components is not empty and does not start with a slash.
join-relative :
    (ps : List Text)
    → ps ≢ []
    → All IsComponent ps
    → All (Lacks b'/') ps
    → (join b'/' ps ≢ []) × (starts_with_char b'/' (join b'/' ps) ≡ false)
unfolding join
join-relative [] n h l = absurd (n refl)
join-relative ([] ∷ ps) n h l = absurd (h.0.nonempty refl)
join-relative ((c ∷ p) ∷ []) n h l = ground arith
join-relative ((c ∷ p) ∷ (q ∷ ps)) n h l = ground arith

complete : (v : Text) → IsPayloadPath v → validate_relative_path v ≡ ok tt
unfolding validate_relative_path
complete v k =
    let (filled, relative) = join-relative k.parts k.some_parts k.components k.no_slash in
    ground (
      arith,
      k.joined,
      filled,
      relative,
      split-join b'/' k.parts k.some_parts k.no_slash,
      (validate_components_iff k.parts).1 k.components,
      k.no_backslash,
      k.short,
    )

-- A text is accepted as a payload path exactly when it joins, by single slashes, one or more names
-- that are not empty, not "." or "..", at most 255 bytes long and without control characters and
-- slashes, and it is at most 4096 bytes long and holds no backslash. The only result is the text
-- itself, and all other texts are refused.
pub parse_payload_path_iff :
    (v r : Text) → (parse_payload_path v ≡ ok r) ↔ ((r ≡ v) × IsPayloadPath v)
unfolding parse_payload_path
parse_payload_path_iff v r =
    (λ h. (ground arith, sound v (ground arith)), λ k. ground (arith, complete v k.1, k.0))
