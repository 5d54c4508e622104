-- ===== src/Queue/Batch/Selection.antt =====
-- The requests that a batch keeps: the first of the candidates, whatever order they are found in.
use mathlib.Core.List.{Permᴰ}
use mathlib.Core.List.Permᴰ
use agent_knowledge.Prelude.{
  ℕ, zero, suc, ◌≤◌, ◌<◌, ◌⊎◌, ◌≡◌, refl, sym, ◌∙◌, ap, true, false, List, [], ◌∷◌, ◌++◌,
  append-nil, All, subst, arith, nat_eq, ltb, take, length, Bool-cases, inl, inr,
}
use agent_knowledge.Queue.Session.{PendingCandidate}
use agent_knowledge.Queue.Batch.{candidate_leb, push, pop, retain}

-- The candidates in order.
unfoldable sorted : List PendingCandidate → List PendingCandidate → List PendingCandidate
sorted xs [] = xs
sorted xs (c ∷ cs) = sorted (push c xs) cs

-- What a scan keeps of the candidates that it finds.
unfoldable pub retained : ℕ → List PendingCandidate → List PendingCandidate → List PendingCandidate
retained m xs [] = xs
retained m xs (c ∷ cs) = retained m (retain m xs c) cs

take-take : (m : ℕ) (xs : List PendingCandidate) → take m (take m xs) ≡ take m xs
take-take zero xs = refl
take-take (suc m) [] = refl
take-take (suc m) (x ∷ xs) = ap (λ t. x ∷ t) (take-take m xs)

take-suc-take : (m : ℕ) (xs : List PendingCandidate) → take m (take (suc m) xs) ≡ take m xs
take-suc-take zero xs = refl
take-suc-take (suc m) [] = refl
take-suc-take (suc m) (x ∷ xs) = ap (λ t. x ∷ t) (take-suc-take m xs)

-- A push sees only the first elements.
take-push :
    (m : ℕ) (c : PendingCandidate) (xs : List PendingCandidate)
    → take m (push c (take m xs)) ≡ take m (push c xs)
unfolding push
take-push zero c xs = refl
take-push (suc m) c [] = refl
take-push (suc m) c (x ∷ xs) = elim (Bool-cases (candidate_leb c x)) [
  | inl y ↦ rw y (ap (λ t. c ∷ t) (front m))
  | inr n ↦ rw n (ap (λ t. x ∷ t) (take-push m c xs))
]
  where
    front : (k : ℕ) → take k (x ∷ take k xs) ≡ take k (x ∷ xs)
    front zero = refl
    front (suc k) = ap (λ t. x ∷ t) (take-suc-take k xs)

length-push :
    (c : PendingCandidate) (xs : List PendingCandidate) → length (push c xs) ≡ suc (length xs)
unfolding push
length-push c [] = refl
length-push c (x ∷ xs) = ground (arith, length-push c xs)

length-take : (m : ℕ) (xs : List PendingCandidate) → length (take m xs) ≤ m
length-take zero xs = omega arith
length-take (suc m) [] = omega arith
length-take (suc m) (x ∷ xs) = omega (arith, length-take m xs)

take-pop : (xs : List PendingCandidate) (m : ℕ) → length xs ≡ suc m → pop xs ≡ take m xs
take-pop [] m h = absurd (omega arith)
take-pop (x ∷ []) zero h = refl
take-pop (x ∷ []) (suc m) h = absurd (omega arith)
take-pop (x ∷ (y ∷ xs)) zero h = absurd (omega arith)
take-pop (x ∷ (y ∷ xs)) (suc m) h = ap (λ t. x ∷ t) (take-pop (y ∷ xs) m (omega arith))

take_short : (xs : List PendingCandidate) (m : ℕ) → length xs ≤ m → take m xs ≡ xs
take_short [] zero h = refl
take_short [] (suc m) h = refl
take_short (x ∷ xs) zero h = absurd (omega arith)
take_short (x ∷ xs) (suc m) h = ap (λ t. x ∷ t) (take_short xs m (omega arith))

retain-take :
    (m : ℕ) (xs : List PendingCandidate) (c : PendingCandidate)
    → retain m (take m xs) c ≡ take m (push c xs)
unfolding retain
retain-take m xs c = elim (Bool-cases (ltb m (length (push c (take m xs))))) [
  | inl y ↦ rw y (take-pop (push c (take m xs)) m (full y) ∙ take-push m c xs)
  | inr n ↦ rw n (sym (take_short (push c (take m xs)) m (ground arith)) ∙ take-push m c xs)
]
  where
    full : ltb m (length (push c (take m xs))) ≡ true → length (push c (take m xs)) ≡ suc m
    full y = ground (arith, length-push c (take m xs), length-take m xs)

retained-take :
    (m : ℕ) (xs cs : List PendingCandidate) → retained m (take m xs) cs ≡ take m (sorted xs cs)
unfolding retained sorted
retained-take m xs [] = refl
retained-take m xs (c ∷ cs) =
    ap (λ t. retained m t cs) (retain-take m xs c) ∙ retained-take m (push c xs) cs

-- Two pushes commute.
push-push :
    (a b : PendingCandidate) (xs : List PendingCandidate) → push a (push b xs) ≡ push b (push a xs)
unfolding push
push-push a b [] = ground arith
push-push a b (x ∷ xs) = ground (arith, push-push a b xs)

sorted-perm :
    {cs ds : List PendingCandidate} (xs : List PendingCandidate)
    → Permᴰ cs ds
    → sorted xs cs ≡ sorted xs ds
unfolding sorted
sorted-perm xs Permᴰ.nil = refl
sorted-perm xs (Permᴰ.cons {a} {b} {l₁} e p) =
    ap (λ c. sorted (push c xs) l₁) e ∙ sorted-perm (push b xs) p
sorted-perm xs (Permᴰ.swap {a} {b} {a'} {b'} {l} e g) =
    ap (λ t. sorted t l)
      (push-push b a xs ∙ (ap (λ c. push c (push b xs)) e ∙ ap (λ t. push b' (push t xs)) g))
sorted-perm xs (Permᴰ.trans p q) = sorted-perm xs p ∙ sorted-perm xs q

-- The order of acceptance: an earlier sequence comes first, and among equal ones the lower identifier.
abbrev pub Precedes : PendingCandidate → PendingCandidate → Type 0
Precedes a b =
    (a.sequence < b.sequence) ⊎ ((a.sequence ≡ b.sequence) × (a.request_id ≤ b.request_id))

-- Each candidate comes before all that follow it.
abbrev pub IsOrdered : List PendingCandidate → Type 0
IsOrdered [] = Unit
IsOrdered (x ∷ xs) = All (Precedes x) xs × IsOrdered xs

candidate_leb_sound :
    (a b : PendingCandidate)
    → (candidate_leb a b ≡ true → Precedes a b) × (candidate_leb a b ≡ false → Precedes b a)
candidate_leb_sound a b = (λ h. ground arith, λ h. ground arith)

Precedes-trans : (a b c : PendingCandidate) → Precedes a b → Precedes b c → Precedes a c
Precedes-trans a b c h k = ground arith

All-push :
    (P : PendingCandidate → Type 0) (c : PendingCandidate) (xs : List PendingCandidate)
    → P c
    → All P xs
    → All P (push c xs)
unfolding push
All-push P c [] h hs = (h, tt)
All-push P c (x ∷ xs) h hs = elim (Bool-cases (candidate_leb c x)) [
  | inl y ↦ rw y (h, (hs.0, hs.1))
  | inr n ↦ rw n (hs.0, All-push P c xs h hs.1)
]

later-All :
    (c x : PendingCandidate) (xs : List PendingCandidate)
    → Precedes c x
    → All (Precedes x) xs
    → All (Precedes c) xs
later-All c x [] h hs = tt
later-All c x (y ∷ ys) h (k, ks) = (Precedes-trans c x y h k, later-All c x ys h ks)

push-IsOrdered :
    (c : PendingCandidate) (xs : List PendingCandidate) → IsOrdered xs → IsOrdered (push c xs)
unfolding push
push-IsOrdered c [] h = (tt, tt)
push-IsOrdered c (x ∷ xs) h = elim (Bool-cases (candidate_leb c x)) [
  | inl y ↦
      let first = (candidate_leb_sound c x).0 y in
      rw y ((first, later-All c x xs first h.0), (h.0, h.1))
  | inr n ↦
      rw n (All-push (Precedes x) c xs ((candidate_leb_sound c x).1 n) h.0, push-IsOrdered c xs h.1)
]

sorted-IsOrdered : (xs cs : List PendingCandidate) → IsOrdered xs → IsOrdered (sorted xs cs)
unfolding sorted
sorted-IsOrdered xs [] h = h
sorted-IsOrdered xs (c ∷ cs) h = sorted-IsOrdered (push c xs) cs (push-IsOrdered c xs h)

push-Permᴰ : (c : PendingCandidate) (xs : List PendingCandidate) → Permᴰ (push c xs) (c ∷ xs)
unfolding push
push-Permᴰ c [] = Permᴰ.refl (c ∷ [])
push-Permᴰ c (x ∷ xs) = elim (Bool-cases (candidate_leb c x)) [
  | inl y ↦ rw y (Permᴰ.refl (c ∷ (x ∷ xs)))
  | inr n ↦ rw n (Permᴰ.trans (Permᴰ.cons refl (push-Permᴰ c xs)) (Permᴰ.swap refl refl))
]

sorted_ends : (xs cs : List PendingCandidate) → Permᴰ (sorted xs cs) (cs ++ xs)
unfolding sorted
sorted_ends xs [] = Permᴰ.refl xs
sorted_ends xs (c ∷ cs) = Permᴰ.trans (sorted_ends (push c xs) cs) (moved cs)
  where
    moved : (bs : List PendingCandidate) → Permᴰ (bs ++ push c xs) (c ∷ (bs ++ xs))
    moved [] = push-Permᴰ c xs
    moved (b ∷ bs) = Permᴰ.trans (Permᴰ.cons refl (moved bs)) (Permᴰ.swap refl refl)

-- A scan keeps the same of its candidates in whatever order it finds them: the first `m` of a list of
-- them in which each comes before all that follow it, by a lower acceptance sequence, or by an equal
-- one and an identifier that is not greater.
pub retained_first :
    (m : ℕ) (cs ds : List PendingCandidate)
    → Permᴰ cs ds
    → (retained m [] cs ≡ retained m [] ds)
      × (os : List PendingCandidate) × (retained m [] cs ≡ take m os)
      × IsOrdered os
      × Permᴰ os cs
retained_first m cs ds p = (
  first cs ∙ (ap (λ t. take m t) (sorted-perm [] p) ∙ sym (first ds)),
  sorted [] cs,
  first cs,
  sorted-IsOrdered [] cs tt,
  subst (λ t. Permᴰ (sorted [] cs) t) (append-nil cs) (sorted_ends [] cs),
)
  where
    take_nil : (k : ℕ) → take {A = PendingCandidate} k [] ≡ []
    take_nil zero = refl
    take_nil (suc k) = refl

    first : (es : List PendingCandidate) → retained m [] es ≡ take m (sorted [] es)
    first es = ap (λ t. retained m t es) (sym (take_nil m)) ∙ retained-take m [] es
