-- ===== src/Core/Markdown/Lines.antt =====
-- Lines with their ends, and the two loops over them.
use agent_knowledge.Prelude.{
  ℕ, ◌+◌, ◌≤◌, ◌≡◌, refl, sym, ap, ◌∙◌, ◌≢◌, inl, inr, true, false, List, [], ◌∷◌, ◌++◌,
  append_assoc, arith, ◌==◌, nat_eq, list_eq, if◌then◌else◌, length, length-append, All,
  ends_with_char, ok, Bytes, cons_head, Bool-cases,
}
use agent_knowledge.Core.Markdown.{split_inclusive, is_delimiter, body_offset, front_matter_offset}

unfoldable pub concat : List Bytes → Bytes
concat [] = []
concat (l ∷ ls) = l ++ concat ls

pub concat-append : (xs ys : List Bytes) → concat (xs ++ ys) ≡ concat xs ++ concat ys
unfolding concat
concat-append [] ys = refl
concat-append (x ∷ xs) ys =
    ap (λ t. x ++ t) (concat-append xs ys) ∙ sym (append_assoc x (concat xs) (concat ys))

concat-cons_head : (c : ℕ) (ls : List Bytes) → concat (cons_head c ls) ≡ c ∷ concat ls
unfolding concat
concat-cons_head c [] = refl
concat-cons_head c (l ∷ ls) = refl

pub concat-split_inclusive : (s : Bytes) → concat (split_inclusive s) ≡ s
unfolding split_inclusive concat
concat-split_inclusive [] = refl
concat-split_inclusive (c ∷ s) =
    ground (arith, concat-cons_head c (split_inclusive s), concat-split_inclusive s)

-- Text that is empty or ends a line: what is appended to it starts a new one.
abbrev pub EndsLine : Bytes → Type 0
EndsLine [] = Unit
EndsLine (c ∷ s) = ends_with_char b'\n' (c ∷ s) ≡ true

cons_head-append :
    (c : ℕ) (ls ms : List Bytes) → ls ≢ [] → cons_head c (ls ++ ms) ≡ cons_head c ls ++ ms
cons_head-append c [] ms h = absurd (h refl)
cons_head-append c (l ∷ ls) ms h = refl

split_inclusive-ne-nil : (c : ℕ) (s : Bytes) → split_inclusive (c ∷ s) ≢ []
unfolding split_inclusive
split_inclusive-ne-nil c s e = go (split_inclusive s) e
  where
    go : (ls : List Bytes) → (if c == b'\n' then (c ∷ []) ∷ ls else cons_head c ls) ≡ [] → ⊥
    go [] e = ground arith
    go (l ∷ ls) e = ground arith

pub split_inclusive-append :
    (s t : Bytes) → EndsLine s → split_inclusive (s ++ t) ≡ split_inclusive s ++ split_inclusive t
unfolding split_inclusive
split_inclusive-append [] t h = refl
split_inclusive-append (c ∷ []) t h = ground arith
split_inclusive-append (c ∷ (d ∷ s)) t h = ground (
  arith,
  split_inclusive-append (d ∷ s) t h,
  cons_head-append c (split_inclusive (d ∷ s)) (split_inclusive t) (split_inclusive-ne-nil d s),
)

abbrev pub AreContent : List Bytes → Type 0
AreContent ls = All (λ l. is_delimiter l ≡ false) ls

-- Where the loops stop: at the first delimiter.
pub front_matter_offset-append :
    (maximum offset : ℕ) (ls rest : List Bytes) (d : Bytes)
    → AreContent ls
    → is_delimiter d ≡ true
    → offset + length (concat ls) ≤ maximum
    → front_matter_offset maximum offset (ls ++ (d ∷ rest)) ≡ ok (offset + length (concat ls))
unfolding front_matter_offset concat
front_matter_offset-append maximum offset [] rest d c h le = ground arith
front_matter_offset-append maximum offset (l ∷ ls) rest d (c, cs) h le =
    let sum = length-append l (concat ls) in
    let later =
      front_matter_offset-append maximum (offset + length l) ls rest d cs h (omega (arith, sum)) in
    ground (arith, sum, later)

pub body_offset-append :
    (offset : ℕ) (ls rest : List Bytes) (d : Bytes)
    → AreContent ls
    → is_delimiter d ≡ true
    → body_offset offset (ls ++ (d ∷ rest)) ≡ ok (offset + length (concat ls) + length d)
unfolding body_offset concat
body_offset-append offset [] rest d c h = ground arith
body_offset-append offset (l ∷ ls) rest d (c, cs) h =
    ground
      (arith, length-append l (concat ls), body_offset-append (offset + length l) ls rest d cs h)

-- The lines before the delimiter at which a loop stopped, the delimiter and the lines after it.
pub record Stop (lines : List Bytes) : Type 0 where
  pub before : List Bytes
  pub line : Bytes
  pub after : List Bytes
  pub split_lines : lines ≡ before ++ (line ∷ after)
  pub content : AreContent before
  pub delimiter : is_delimiter line ≡ true

stop_later :
    (l : Bytes) {lines : List Bytes} → is_delimiter l ≡ false → Stop lines → Stop (l ∷ lines)
stop_later l h s = record {
  before = l ∷ s.before;
  line = s.line;
  after = s.after;
  split_lines = ap (λ t. l ∷ t) s.split_lines;
  content = (h, s.content);
  delimiter = s.delimiter;
}

pub front_matter_offset_sound :
    (maximum offset : ℕ) (lines : List Bytes) {n : ℕ}
    → front_matter_offset maximum offset lines ≡ ok n
    → (s : Stop lines) × (n ≡ offset + length (concat s.before)) × (n ≤ maximum)
unfolding front_matter_offset concat stop_later
front_matter_offset_sound maximum offset [] h = cc
front_matter_offset_sound maximum offset (l ∷ lines) {n} h = elim (Bool-cases (is_delimiter l)) [
  | inl stop ↦ (
    record {
      before = [];
      line = l;
      after = lines;
      split_lines = refl;
      content = tt;
      delimiter = stop;
    },
    ground arith,
    ground arith,
  )
  | inr more ↦
      let rest : front_matter_offset maximum (offset + length l) lines ≡ ok n = ground arith in
      let (s, at, fits) = front_matter_offset_sound maximum (offset + length l) lines rest in
      (stop_later l more s, omega (arith, at, length-append l (concat s.before)), fits)
]
