-- ===== src/Core/Document/Blank.antt =====
-- When a text is blank: white space only.
use agent_knowledge.Prelude.{
  ◌≡◌, refl, ◌∙◌, Bool, false, List, [], ◌∷◌, ◌++◌, reverse, arith, all, all-append, is_empty,
  drop_while, Text, is_whitespace, trim,
}
use mathlib.Core.List.{reverse-cons}

module _ {ℓ} {A : Type ℓ} (p : A → Bool) where
  is_empty-drop_while : (xs : List A) → is_empty (drop_while p xs) ≡ all p xs
  unfolding drop_while
  is_empty-drop_while [] = refl
  is_empty-drop_while (x ∷ xs) = ground (arith, is_empty-drop_while xs)

  all-reverse : (xs : List A) → all p (reverse xs) ≡ all p xs
  all-reverse [] = refl
  all-reverse (x ∷ xs) =
      rw reverse-cons (ground (arith, all-append p (reverse xs) (x ∷ []), all-reverse xs))

  -- What is left of a list, and not empty, holds an element that fails the test.
  all-drop_while : (xs : List A) → all p (drop_while p xs) ≡ all p xs
  unfolding drop_while
  all-drop_while [] = refl
  all-drop_while (x ∷ xs) = ground (arith, all-drop_while xs)

is_empty-reverse {ℓ} : {A : Type ℓ} (xs : List A) → is_empty (reverse xs) ≡ is_empty xs
is_empty-reverse [] = refl
is_empty-reverse {A} (x ∷ xs) = rw reverse-cons (go (reverse xs))
  where
    go : (ys : List A) → is_empty (ys ++ x ∷ []) ≡ false
    go [] = refl
    go (y ∷ ys) = refl

-- Trimming leaves nothing exactly of a text of white space.
pub is_empty-trim : (v : Text) → is_empty (trim v) ≡ all is_whitespace v
unfolding trim
is_empty-trim v =
    is_empty-reverse (drop_while is_whitespace (reverse (drop_while is_whitespace v)))
    ∙ is_empty-drop_while is_whitespace (reverse (drop_while is_whitespace v))
    ∙ all-reverse is_whitespace (drop_while is_whitespace v)
    ∙ all-drop_while is_whitespace v
