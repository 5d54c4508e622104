-- ===== src/Core/Path/Traversal.antt =====
-- What an accepted path does when it is joined to a directory.
use agent_knowledge.Prelude.{
  ◌≡◌, refl, ◌∙◌, ap, List, [], ◌∷◌, ◌++◌, reverse, append_assoc, Option, none, some, arith, ◌==◌,
  ==_iff, nat_eq, list_eq, if◌then◌else◌, is_empty, All, ok, Text, text, starts_with_char, ◌||◌,
  false, split, any, Lacks, split-Lacks, split_of_Lacks, subst, ◌↔◌,
}
use mathlib.Core.List.{reverse-cons}
use agent_knowledge.Core.Path.{
  validate_relative_path, validate_components, parse_payload_path, parse_attachment_name,
}
use agent_knowledge.Core.Path.Components.{IsComponent, validate_components_iff}

-- How a file system reads a relative path below a root: a stack of the directories entered, with
-- the innermost at its head. An empty part and "." stay, and ".." leaves the innermost directory; at
-- the root it escapes, which is `none`.
abbrev pub leave : List Text → Option (List Text)
leave [] = none
leave (_ ∷ rest) = some rest

pub enter : List Text → Text → Option (List Text)
enter stack part =
    if is_empty part || part == text "."
    then some stack
    else if part == text ".."
    then leave stack
    else some (part ∷ stack)

abbrev walk_on : (List Text → Option (List Text)) → Option (List Text) → Option (List Text)
walk_on f none = none
walk_on f (some stack) = f stack

pub walk : List Text → List Text → Option (List Text)
unfolding enter
walk [] stack = some stack
walk (part ∷ parts) stack = walk_on (walk parts) (enter stack part)

enter_component : (stack : List Text) (p : Text) → IsComponent p → enter stack p ≡ some (p ∷ stack)
unfolding enter
enter_component stack [] k = absurd (k.nonempty refl)
enter_component stack (c ∷ p) k =
    ground
      (arith, ==_iff (c ∷ p) (text "."), ==_iff (c ∷ p) (text ".."), k.not_current, k.not_parent)

walk_components :
    (ps : List Text) (stack : List Text)
    → All IsComponent ps
    → walk ps stack ≡ some (reverse ps ++ stack)
unfolding walk
walk_components [] stack h = refl
walk_components (p ∷ ps) stack (k, h) =
    rw (enter_component stack p k)
      (walk_components ps (p ∷ stack) h ∙ ap some (simp (reverse-cons, append_assoc)))

relative_of :
    (v : Text)
    → validate_relative_path v ≡ ok tt
    → (starts_with_char b'/' v ≡ false) × (validate_components (split b'/' v) ≡ ok tt)
unfolding validate_relative_path
relative_of v h = ground arith

-- A path that is accepted as a payload path is relative, and a file system that reads it from any
-- directory below a root enters one directory or file for each part between slashes: it never
-- leaves a directory, so it stays below the directory where it starts.
pub walk-payload_path :
    (v : Text) (stack : List Text)
    → parse_payload_path v ≡ ok v
    → (starts_with_char b'/' v ≡ false)
      × (walk (split b'/' v) stack ≡ some (reverse (split b'/' v) ++ stack))
unfolding parse_payload_path
walk-payload_path v stack h =
    let (relative, parts) = relative_of v (ground arith) in
    (relative, walk_components _ stack ((validate_components_iff _).0 parts))

any_separator :
    (v : Text)
    → (any (λ c. c == b'/' || c == b'\\') v ≡ false)
      ↔ (Lacks b'/' v × (any (λ c. c == b'\\') v ≡ false))
any_separator [] = ground arith
any_separator (c ∷ v) = ground (arith, any_separator v)

not_absolute : (v : Text) → Lacks b'/' v → starts_with_char b'/' v ≡ false
not_absolute [] h = refl
not_absolute (c ∷ v) h = ground arith

attachment_sound :
    (v : Text)
    → parse_attachment_name v ≡ ok v
    → (parse_payload_path v ≡ ok v) × (split b'/' v ≡ v ∷ []) × (starts_with_char b'.' v ≡ false)
unfolding parse_attachment_name parse_payload_path
attachment_sound [] h = cc
attachment_sound (c ∷ v) h =
    let (lacks, plain) = (any_separator (c ∷ v)).0 (ground arith) in
    let single : split b'/' (c ∷ v) ≡ (c ∷ v) ∷ [] = split_of_Lacks b'/' (c ∷ v) lacks in
    (ground (arith, lacks, plain, single, not_absolute (c ∷ v) lacks), single, ground arith)

attachment_complete :
    (v : Text)
    → parse_payload_path v ≡ ok v
    → split b'/' v ≡ v ∷ []
    → starts_with_char b'.' v ≡ false
    → parse_attachment_name v ≡ ok v
unfolding parse_attachment_name parse_payload_path
attachment_complete v h single visible =
    let lacks : Lacks b'/' v = (subst (All (Lacks b'/')) single (split-Lacks b'/' v)).0 in
    ground (arith, any_separator v, single, visible, lacks)

-- A text is accepted as an attachment name exactly when it is accepted as a payload path, holds no
-- slash, so that it is a single component, and does not begin with a dot.
pub parse_attachment_name_iff :
    (v : Text)
    → (parse_attachment_name v ≡ ok v) ↔ (
        (parse_payload_path v ≡ ok v) × (split b'/' v ≡ v ∷ []) × (starts_with_char b'.' v ≡ false))
parse_attachment_name_iff v = (attachment_sound v, λ h. attachment_complete v h.0 h.1 h.2)
