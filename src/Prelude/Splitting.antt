-- ===== src/Prelude/Splitting.antt =====
-- Laws of `split` and `join`.
use Prim.Native.Nat.{ℕ}
use mathlib.Core.Path.{◌≡◌, refl}
use mathlib.Core.Logic.{◌≢◌}
use mathlib.Core.Bool.{Bool, false}
use mathlib.Core.List.{List, [], ◌∷◌, ◌++◌}
use native.Mathlib.Omega.{arith}
use agent_knowledge.Prelude.Tests.{◌==◌, nat_eq, if◌then◌else◌}
use agent_knowledge.Prelude.Lists.{All, any, any-append}
use agent_knowledge.Prelude.Strings.{Text, split, join, cons_head}

-- A text without the separator.
abbrev pub Lacks : ℕ → Text → Type 0
Lacks c p = any (λ x. x == c) p ≡ false

pub split-ne-nil : (c : ℕ) (v : Text) → split c v ≢ []
unfolding split
split-ne-nil c [] e = cc
split-ne-nil c (x ∷ v) e = go (split c v) (ground arith)
  where
    go : (ps : List Text) → (if x == c then [] ∷ ps else cons_head x ps) ≡ [] → ⊥
    go [] e = ground arith
    go (p ∷ ps) e = ground arith

join-cons : (c x : ℕ) (ps : List Text) → join c (cons_head x ps) ≡ x ∷ join c ps
unfolding join
join-cons c x [] = refl
join-cons c x (p ∷ []) = refl
join-cons c x (p ∷ (q ∷ ps)) = refl

join-nil : (c : ℕ) (ps : List Text) → ps ≢ [] → join c ([] ∷ ps) ≡ c ∷ join c ps
unfolding join
join-nil c [] h = absurd (h refl)
join-nil c (p ∷ ps) h = refl

pub join-split : (c : ℕ) (v : Text) → join c (split c v) ≡ v
unfolding split join
join-split c [] = refl
join-split c (x ∷ v) =
    ground
      (arith, join-cons c x (split c v), join-nil c (split c v) (split-ne-nil c v), join-split c v)

Lacks-cons_head :
    (c x : ℕ) (ps : List Text)
    → (x == c) ≡ false
    → All (Lacks c) ps
    → All (Lacks c) (cons_head x ps)
Lacks-cons_head c x [] n h = ground arith
Lacks-cons_head c x (p ∷ ps) n h = ground arith

pub split-Lacks : (c : ℕ) (v : Text) → All (Lacks c) (split c v)
unfolding split
split-Lacks c [] = (refl, tt)
split-Lacks c (x ∷ v) = ground (
  arith,
  split-Lacks c v,
  λ (n : (x == c) ≡ false). Lacks-cons_head c x (split c v) n (split-Lacks c v),
)

pub split_of_Lacks : (c : ℕ) (p : Text) → Lacks c p → split c p ≡ p ∷ []
unfolding split
split_of_Lacks c [] h = refl
split_of_Lacks c (x ∷ p) h = ground (arith, split_of_Lacks c p)

split-append : (c : ℕ) (p v : Text) → Lacks c p → split c (p ++ (c ∷ v)) ≡ p ∷ split c v
unfolding split
split-append c [] v h = ground arith
split-append c (x ∷ p) v h = ground (arith, split-append c p v)

-- A list of texts without the separator comes back from the text that joins them.
pub split-join : (c : ℕ) (ps : List Text) → ps ≢ [] → All (Lacks c) ps → split c (join c ps) ≡ ps
unfolding join
split-join c [] n h = absurd (n refl)
split-join c (p ∷ []) n h = split_of_Lacks c p h.0
split-join c (p ∷ (q ∷ ps)) n (h, hs) =
    ground (arith, split-append c p (join c (q ∷ ps)) h, split-join c (q ∷ ps) (λ e. cc) hs)

pub any-join :
    (c : ℕ) (f : ℕ → Bool) (ps : List Text)
    → f c ≡ false
    → All (λ p. any f p ≡ false) ps
    → any f (join c ps) ≡ false
unfolding join
any-join c f [] n h = refl
any-join c f (p ∷ []) n h = h.0
any-join c f (p ∷ (q ∷ ps)) n (h, hs) =
    ground (arith, any-append f p (c ∷ join c (q ∷ ps)), any-join c f (q ∷ ps) n hs)
