-- ===== src/Core/Revision/Digits.antt =====
-- One byte and its two hexadecimal digits.
use agent_knowledge.Prelude.{
  ℕ, ◌+◌, ◌*◌, ◌<◌, ◌≡◌, true, [], ◌∷◌, arith, some, ok, Bool-cases, inl, inr, ◌-◌, leb,
  is_utf8-nil, is_utf8-cons,
}
use agent_knowledge.Core.Revision.{hex_digit, is_lower_hex, to_digit, from_digits, parse_pair}

pub to_digit-hex_digit : (d : ℕ) → d < 16 → to_digit (hex_digit d) ≡ some d
unfolding to_digit
to_digit-hex_digit d h = ground arith

pub hex_digit-to_digit :
    (c : ℕ) → is_lower_hex c ≡ true → (d : ℕ) × (to_digit c ≡ some d) × (d < 16) × (hex_digit d ≡ c)
unfolding to_digit
hex_digit-to_digit c h = elim (Bool-cases (leb c b'9')) [
  | inl digit ↦ (c - b'0', ground arith, ground arith, ground arith)
  | inr letter ↦ (c - b'a' + 10, ground arith, ground arith, ground arith)
]

pub is_lower_hex-hex_digit : (d : ℕ) → d < 16 → is_lower_hex (hex_digit d) ≡ true
is_lower_hex-hex_digit d h = ground arith

-- Two lower-case digits are read as the byte that they write.
pub parse_pair_of_digits :
    (a b x y : ℕ)
    → is_lower_hex a ≡ true
    → is_lower_hex b ≡ true
    → to_digit a ≡ some x
    → to_digit b ≡ some y
    → x < 16
    → y < 16
    → parse_pair (a ∷ b ∷ []) ≡ ok (x * 16 + y)
unfolding parse_pair from_digits
parse_pair_of_digits a b x y ha hb ea eb hx hy =
    ground (arith, is_utf8-cons a (b ∷ []), is_utf8-cons b [], is_utf8-nil)
