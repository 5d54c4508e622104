-- ===== src/Prelude/Lists.antt =====
-- Lists measured and searched by native numbers and Boolean tests.
use Prim.Native.Nat.{ℕ, zero, suc, ◌+◌}
use mathlib.Core.Path.{◌≡◌, refl, ap, sym}
use mathlib.Core.Logic.{◌≢◌, ◌↔◌}
use mathlib.Core.Bool.{Bool, true, false, ◌&&◌, ◌||◌}
use mathlib.Core.Option.{Option, none, some}
use mathlib.Core.List.{List, [], ◌∷◌, ◌++◌}
use native.Mathlib.Omega.{arith}
use agent_knowledge.Prelude.Tests.{PartialEq, ◌==◌, if◌then◌else◌}

module _ {ℓ} {A : Type ℓ} where
  abbrev pub length : List A → ℕ
  length [] = 0
  length (x ∷ xs) = suc (length xs)

  abbrev pub take : ℕ → List A → List A
  take zero xs = []
  take (suc n) [] = []
  take (suc n) (x ∷ xs) = x ∷ take n xs

  abbrev pub drop : ℕ → List A → List A
  drop zero xs = xs
  drop (suc n) [] = []
  drop (suc n) (x ∷ xs) = drop n xs

  abbrev pub is_empty : List A → Bool
  is_empty [] = true
  is_empty (x ∷ xs) = false

  abbrev pub all : (A → Bool) → List A → Bool
  all p [] = true
  all p (x ∷ xs) = p x && all p xs

  abbrev pub any : (A → Bool) → List A → Bool
  any p [] = false
  any p (x ∷ xs) = p x || any p xs

  unfoldable pub drop_while : (A → Bool) → List A → List A
  drop_while p [] = []
  drop_while p (x ∷ xs) = if p x then drop_while p xs else x ∷ xs

  pub length-append : (xs ys : List A) → length (xs ++ ys) ≡ length xs + length ys
  length-append [] ys = omega arith
  length-append (x ∷ xs) ys = omega (arith, length-append xs ys)

  pub all-append : (p : A → Bool) (xs ys : List A) → all p (xs ++ ys) ≡ (all p xs && all p ys)
  all-append p [] ys = refl
  all-append p (x ∷ xs) ys = ground (arith, all-append p xs ys)

  pub any-append : (p : A → Bool) (xs ys : List A) → any p (xs ++ ys) ≡ (any p xs || any p ys)
  any-append p [] ys = refl
  any-append p (x ∷ xs) ys = ground (arith, any-append p xs ys)

  pub take-append : (xs ys : List A) → take (length xs) (xs ++ ys) ≡ xs
  take-append [] ys = refl
  take-append (x ∷ xs) ys = ap (λ t. x ∷ t) (take-append xs ys)

  pub drop-append : (xs ys : List A) → drop (length xs) (xs ++ ys) ≡ ys
  drop-append [] ys = refl
  drop-append (x ∷ xs) ys = drop-append xs ys

module _ {ℓ κ} {A : Type ℓ} (P : A → Type κ) where
  abbrev pub All : List A → Type κ
  All [] = Unit
  All (x ∷ xs) = P x × All xs

module _ {ℓ} {A : Type ℓ} ⦃e : PartialEq A⦄ where
  abbrev pub contains : A → List A → Bool
  contains a xs = any (λ x. x == a) xs

  -- A `HashMap` as an association list: the newest entry of a key comes first.
  unfoldable pub lookup {κ} : {V : Type κ} → A → List (A × V) → Option V
  lookup key [] = none
  lookup key ((other, value) ∷ entries) = if other == key then some value else lookup key entries

-- No element occurs twice.
abbrev pub Distinct {ℓ} : {A : Type ℓ} → List A → Type ℓ
Distinct [] = Unit
Distinct (x ∷ xs) = All (λ y. y ≢ x) xs × Distinct xs

-- No element of the second list is in the first.
abbrev pub Apart {ℓ} : {A : Type ℓ} → List A → List A → Type ℓ
Apart seen xs = All (λ x. All (λ s. s ≢ x) seen) xs

module _ {ℓ} {A : Type ℓ} ⦃e : PartialEq A⦄ where
  pub contains-eq-false_iff : (a : A) (xs : List A) → (contains a xs ≡ false) ↔ All (λ x. x ≢ a) xs
  contains-eq-false_iff a [] = ground arith
  contains-eq-false_iff a (x ∷ xs) = ground (arith, e.eq_iff x a, contains-eq-false_iff a xs)

module _ {ℓ} {A : Type ℓ} where
  pub Apart-nil : (xs : List A) → Apart [] xs
  Apart-nil [] = tt
  Apart-nil (x ∷ xs) = (tt, Apart-nil xs)

  pub Apart-cons :
      (a : A) (seen xs : List A) → Apart (a ∷ seen) xs ↔ (All (λ x. x ≢ a) xs × Apart seen xs)
  Apart-cons a seen [] = (λ _. (tt, tt), λ _. tt)
  Apart-cons a seen (x ∷ xs) =
      let (to, from) = Apart-cons a seen xs in
      (
        λ h. ((λ p. h.0.0 (sym p), (to h.1).0), (h.0.1, (to h.1).1)),
        λ h. ((λ p. h.0.0 (sym p), h.1.0), from (h.0.1, h.1.1)),
      )
