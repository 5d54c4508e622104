-- ===== src/Prelude/Strings.antt =====
-- Rust's `str` as the list of its Unicode scalar values, with the operations of the standard
-- library that the sources use: the UTF-8 bytes, white space, control characters, splitting.
use Prim.Native.Char.{code}
use Prim.Native.Nat.{ℕ, zero, suc, ◌+◌, ◌/◌, ◌%◌, ◌≤◌, ◌<◌}
use Prim.Native.String.{String}
use mathlib.Core.Path.{◌≡◌, refl, ◌∙◌, ap₂}
use mathlib.Core.Option.{Option, none, some}
use native.Mathlib.Omega.{arith}
use mathlib.Core.Bool.{Bool, true, false, ◌&&◌, ◌||◌}
use mathlib.Core.List.{List, [], ◌∷◌, ◌++◌, reverse}
use agent_knowledge.Prelude.Tests.{ltb, leb, if◌then◌else◌, ◌==◌, nat_eq}
use agent_knowledge.Prelude.Lists.{length, is_empty, drop_while, all, all-append}

abbrev pub Text : Type 0
Text = List ℕ

abbrev pub Bytes : Type 0
Bytes = List ℕ

-- The scalar values of a literal.
abbrev pub text : String → Text
text String.[] = []
text (String.◌∷◌ c s) = code c ∷ text s

abbrev pub encode_char : ℕ → Bytes
encode_char c =
    if ltb c 0x80
    then c ∷ []
    else if ltb c 0x800
    then (0xC0 + c / 64) ∷ (0x80 + c % 64) ∷ []
    else if ltb c 0x10000
    then (0xE0 + c / 4096) ∷ (0x80 + c / 64 % 64) ∷ (0x80 + c % 64) ∷ []
    else (0xF0 + c / 262144) ∷ (0x80 + c / 4096 % 64) ∷ (0x80 + c / 64 % 64) ∷ (0x80 + c % 64) ∷ []

-- `str::bytes`
unfoldable pub bytes : Text → Bytes
bytes [] = []
bytes (c ∷ s) = encode_char c ++ bytes s

-- `str::len`
abbrev pub byte_length : Text → ℕ
byte_length s = length (bytes s)

-- `char::is_control`: the general category Cc.
abbrev pub is_control : ℕ → Bool
is_control c = ltb c 32 || (leb 0x7F c && leb c 0x9F)

-- `char::is_whitespace`: the property White_Space.
unfoldable pub is_whitespace : ℕ → Bool
is_whitespace c =
    (leb 9 c && leb c 13)
    || c == 32
    || c == 0x85
    || c == 0xA0
    || c == 0x1680
    || (leb 0x2000 c && leb c 0x200A)
    || c == 0x2028
    || c == 0x2029
    || c == 0x202F
    || c == 0x205F
    || c == 0x3000

-- `str::trim`
unfoldable pub trim : Text → Text
unfolding drop_while is_whitespace
trim s = reverse (drop_while is_whitespace (reverse (drop_while is_whitespace s)))

abbrev pub starts_with_char : ℕ → Text → Bool
starts_with_char c [] = false
starts_with_char c (x ∷ s) = x == c

abbrev pub ends_with_char : ℕ → Text → Bool
ends_with_char c [] = false
ends_with_char c (x ∷ s) = let rest = ends_with_char c s in if is_empty s then x == c else rest

abbrev pub cons_head : ℕ → List Text → List Text
cons_head c [] = (c ∷ []) ∷ []
cons_head c (p ∷ ps) = (c ∷ p) ∷ ps

-- `str::split`
unfoldable pub split : ℕ → Text → List Text
split c [] = [] ∷ []
split c (x ∷ s) = let rest = split c s in if x == c then [] ∷ rest else cons_head x rest

-- `[_]::join`
unfoldable pub join : ℕ → List Text → Text
join c [] = []
join c (p ∷ []) = p
join c (p ∷ (q ∷ ps)) = p ++ (c ∷ join c (q ∷ ps))

-- `str::strip_prefix`
unfoldable pub strip_prefix : Text → Text → Option Text
strip_prefix [] s = some s
strip_prefix (p ∷ ps) [] = none
strip_prefix (p ∷ ps) (c ∷ s) = let rest = strip_prefix ps s in if c == p then rest else none

-- How many continuation bytes follow a lead byte, and between which bounds the first of them lies.
record Expect : Type 0 where
  count : ℕ
  low : ℕ
  high : ℕ

abbrev expect : ℕ → ℕ → ℕ → Option Expect
expect n lo hi = some (record { count = n; low = lo; high = hi })

follow : ℕ → Option Expect
follow b =
    if ltb b 0x80
    then expect 0 0x80 0xBF
    else if leb 0xC2 b && leb b 0xDF
    then expect 1 0x80 0xBF
    else if b == 0xE0
    then expect 2 0xA0 0xBF
    else if b == 0xED
    then expect 2 0x80 0x9F
    else if leb 0xE1 b && leb b 0xEF
    then expect 2 0x80 0xBF
    else if b == 0xF0
    then expect 3 0x90 0xBF
    else if leb 0xF1 b && leb b 0xF3
    then expect 3 0x80 0xBF
    else if b == 0xF4
    then expect 3 0x80 0x8F
    else none

utf8_from : ℕ → ℕ → ℕ → Bytes → Bool
utf8_from zero lo hi [] = true
utf8_from (suc n) lo hi [] = false
utf8_from zero lo hi (b ∷ s) = elim (follow b) [
  | none ↦ false
  | some e ↦ utf8_from e.count e.low e.high s
]
utf8_from (suc n) lo hi (b ∷ s) = leb lo b && leb b hi && utf8_from n 0x80 0xBF s

-- `str::from_utf8(s).is_ok()`
unfoldable pub is_utf8 : Bytes → Bool
unfolding utf8_from follow
is_utf8 s = utf8_from 0 0x80 0xBF s

pub is_utf8-nil : is_utf8 [] ≡ true
unfolding is_utf8
is_utf8-nil = refl

pub is_utf8-cons : (b : ℕ) (s : Bytes) → b < 128 → is_utf8 (b ∷ s) ≡ is_utf8 s
unfolding is_utf8
is_utf8-cons b s h = ground arith

pub bytes_of_ascii : (v : Text) → all (λ c. ltb c 128) v ≡ true → bytes v ≡ v
unfolding bytes
bytes_of_ascii [] h = refl
bytes_of_ascii (c ∷ v) h = ground (arith, bytes_of_ascii v)

all-encode_char :
    (p : ℕ → Bool) (c : ℕ) → ((b : ℕ) → 128 ≤ b → p b ≡ false) → all p (encode_char c) ≡ p c
all-encode_char p c h =
    ground (arith, h c, h (0xC0 + c / 64), h (0xE0 + c / 4096), h (0xF0 + c / 262144))

-- A test that only ASCII bytes pass says the same of the bytes as of the characters.
pub all-bytes :
    (p : ℕ → Bool) (v : Text) → ((b : ℕ) → 128 ≤ b → p b ≡ false) → all p (bytes v) ≡ all p v
unfolding bytes
all-bytes p [] h = refl
all-bytes p (c ∷ v) h =
    all-append p (encode_char c) (bytes v)
    ∙ ap₂ (λ (x y : Bool). x && y) (all-encode_char p c h) (all-bytes p v h)

pub strip_prefix-append : (p s : Text) → strip_prefix p (p ++ s) ≡ some s
unfolding strip_prefix
strip_prefix-append [] s = refl
strip_prefix-append (c ∷ p) s = ground (arith, strip_prefix-append p s)

pub strip_prefix-eq-some : (p v s : Text) → strip_prefix p v ≡ some s → v ≡ p ++ s
unfolding strip_prefix
strip_prefix-eq-some [] v s h = ground arith
strip_prefix-eq-some (c ∷ p) [] s h = cc
strip_prefix-eq-some (c ∷ p) (x ∷ v) s h = ground (arith, strip_prefix-eq-some p v s)
