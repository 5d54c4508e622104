-- ===== src/Core/Revision.antt =====
-- crates/core/src/revision.rs: the SHA-256 revision of a file, and its text form.
pub mod Digits
pub mod RoundTrip
mod Tests
use agent_knowledge.Prelude.{
  ℕ, ◌+◌, ◌-◌, ◌*◌, ◌/◌, ◌%◌, ◌<◌, ◌≡◌, Bool, ◌&&◌, ◌||◌, not, Option, none, some, List, [], ◌∷◌,
  ◌++◌, ltb, leb, ◌==◌, nat_eq, if◌then◌else◌, length, all, All, Result, ok, err, ◌>>=◌, ◌>>◌,
  reject, ok_or, Text, Bytes, text, bytes, byte_length, strip_prefix, is_utf8,
}

abbrev pub prefix : Text
prefix = text "sha256:"

abbrev pub digest_bytes : ℕ
digest_bytes = 32

abbrev pub digest_hex_length : ℕ
digest_hex_length = digest_bytes * 2

-- `Revision([u8; 32])`: the bytes, and the array type as a predicate on them.
abbrev pub Revision : Type 0
Revision = Bytes

abbrev pub IsDigest : Revision → Type 0
IsDigest r = (length r ≡ digest_bytes) × All (λ b. b < 256) r

pub data RevisionParseError : Type 0 where
  missing_prefix : RevisionParseError
  invalid_length : ℕ → RevisionParseError
  invalid_hex : RevisionParseError

-- One digit of `{:02x}`.
abbrev pub hex_digit : ℕ → ℕ
hex_digit d = if ltb d 10 then b'0' + d else b'a' + (d - 10)

-- The loop of `fmt`.
pub hex_bytes : Bytes → Text
hex_bytes [] = []
hex_bytes (b ∷ r) = hex_digit (b / 16) ∷ (hex_digit (b % 16) ∷ hex_bytes r)

unfoldable pub show : Revision → Text
unfolding hex_bytes
show r = prefix ++ hex_bytes r

-- `is_ascii_digit() || (b'a'..=b'f').contains(&byte)`
abbrev pub is_lower_hex : ℕ → Bool
is_lower_hex b = (leb b'0' b && leb b b'9') || (leb b'a' b && leb b b'f')

-- `char::to_digit(16)` of the standard library.
pub to_digit : ℕ → Option ℕ
to_digit c =
    if leb b'0' c && leb c b'9'
    then some (c - b'0')
    else if leb b'a' c && leb c b'f'
    then some (c - b'a' + 10)
    else if leb b'A' c && leb c b'F'
    then some (c - b'A' + 10)
    else none

-- `u8::from_str_radix(_, 16)` of the standard library: an optional `+`, then at least one digit, of
-- a value below 256.
pub from_digits : ℕ → Text → Option ℕ
from_digits acc [] = some acc
from_digits acc (c ∷ s) = elim (to_digit c) [
  | none ↦ none
  | some d ↦
      let rest = from_digits (acc * 16 + d) s in if ltb (acc * 16 + d) 256 then rest else none
]

pub after_sign : Text → Option ℕ
unfolding from_digits
after_sign [] = none
after_sign (c ∷ s) = from_digits 0 (c ∷ s)

pub from_str_radix : Text → Option ℕ
unfolding after_sign from_digits to_digit
from_str_radix [] = none
from_str_radix (c ∷ s) = if c == b'+' then after_sign s else from_digits 0 (c ∷ s)

pub parse_pair : Bytes → Result RevisionParseError ℕ
unfolding from_str_radix
parse_pair pair = do
  reject (not (is_utf8 pair)) invalid_hex
  ok_or (from_str_radix pair) invalid_hex

-- The loop over `chunks_exact(2)`, which leaves an odd byte at the end aside.
pub parse_pairs : Bytes → Result RevisionParseError Bytes
parse_pairs (a ∷ (b ∷ s)) = do
  byte ← parse_pair (a ∷ b ∷ [])
  rest ← parse_pairs s
  ok (byte ∷ rest)
parse_pairs _ = ok []

unfoldable pub parse : Text → Result RevisionParseError Revision
unfolding parse_pairs parse_pair
parse value = do
  digest ← ok_or (strip_prefix prefix value) missing_prefix
  reject (not (byte_length digest == digest_hex_length)) (invalid_length (byte_length digest))
  reject (not (all is_lower_hex (bytes digest))) invalid_hex
  parse_pairs (bytes digest)
