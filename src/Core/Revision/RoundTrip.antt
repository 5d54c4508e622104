-- ===== src/Core/Revision/RoundTrip.antt =====
-- Printing and parsing revisions.
use agent_knowledge.Prelude.{
  ℕ, ◌+◌, ◌*◌, ◌/◌, ◌%◌, ◌<◌, ◌≤◌, ◌≡◌, refl, Bool, true, false, not, [], ◌∷◌, ◌++◌, arith, some,
  ok, length, all, All, Text, bytes, Bytes, strip_prefix, strip_prefix-append, strip_prefix-eq-some,
  bytes_of_ascii, all-bytes, ltb, ap, ◌==◌, nat_eq, >>=-eq-ok, reject-eq-ok, ok_or-eq-ok, ok_or,
  sym, ◌∙◌, zero, suc,
}
use agent_knowledge.Core.Revision.{
  Revision, IsDigest, missing_prefix, prefix, hex_digit, hex_bytes, show, is_lower_hex, parse_pairs,
  parse,
}
use agent_knowledge.Core.Revision.Digits.{
  to_digit-hex_digit, hex_digit-to_digit, is_lower_hex-hex_digit, parse_pair_of_digits,
}

pub all-hex_bytes : (r : Bytes) → All (λ b. b < 256) r → all is_lower_hex (hex_bytes r) ≡ true
unfolding hex_bytes
all-hex_bytes [] h = refl
all-hex_bytes (b ∷ r) (h, hs) =
    ground
      (arith, is_lower_hex-hex_digit (b / 16), is_lower_hex-hex_digit (b % 16), all-hex_bytes r hs)

pub length-hex_bytes : (r : Bytes) → length (hex_bytes r) ≡ length r * 2
unfolding hex_bytes
length-hex_bytes [] = refl
length-hex_bytes (b ∷ r) = omega (arith, length-hex_bytes r)

parse_pairs-hex_bytes : (r : Bytes) → All (λ b. b < 256) r → parse_pairs (hex_bytes r) ≡ ok r
unfolding hex_bytes parse_pairs
parse_pairs-hex_bytes [] h = refl
parse_pairs-hex_bytes (b ∷ r) (h, hs) = ground (
  arith,
  parse_pair_of_digits (hex_digit (b / 16)) (hex_digit (b % 16)) (b / 16) (b % 16),
  to_digit-hex_digit (b / 16),
  to_digit-hex_digit (b % 16),
  is_lower_hex-hex_digit (b / 16),
  is_lower_hex-hex_digit (b % 16),
  parse_pairs-hex_bytes r hs,
)

lower_hex_is_ascii : (v : Text) → all is_lower_hex v ≡ true → all (λ c. ltb c 128) v ≡ true
lower_hex_is_ascii [] h = refl
lower_hex_is_ascii (c ∷ v) h = ground (arith, lower_hex_is_ascii v)

-- `parse` on a text with the prefix, with the digits left shut.
module _ (v d : Text) (stripped : strip_prefix prefix v ≡ some d) where
  parse_of :
      {r : Revision}
      → bytes d ≡ d
      → length d ≡ 64
      → all is_lower_hex d ≡ true
      → parse_pairs d ≡ ok r
      → parse v ≡ ok r
  unfolding parse
  parse_of e n h p = rw (stripped, e, n, h) p

-- Parsing the printed form of a digest, 32 bytes, gives the digest back.
pub parse-show : (r : Revision) → IsDigest r → parse (show r) ≡ ok r
unfolding show
parse-show r (size, small) =
    let hex : all is_lower_hex (hex_bytes r) ≡ true = all-hex_bytes r small in
    parse_of (show r) (hex_bytes r) (strip_prefix-append prefix (hex_bytes r))
      (bytes_of_ascii (hex_bytes r) (lower_hex_is_ascii (hex_bytes r) hex))
      (omega (arith, length-hex_bytes r, size)) hex (parse_pairs-hex_bytes r small)

-- A text of pairs of digits, as its bytes write it.
abbrev IsWrittenBy : Text → Bytes → Type 0
IsWrittenBy s r = (hex_bytes r ≡ s) × (length r * 2 ≡ length s) × All (λ b. b < 256) r

pair_IsWrittenBy :
    (a b : ℕ) (s r : Text)
    → is_lower_hex a ≡ true
    → is_lower_hex b ≡ true
    → parse_pairs (a ∷ (b ∷ s)) ≡ ok r
    → (t : Bytes) × (parse_pairs s ≡ ok t) × (IsWrittenBy s t → IsWrittenBy (a ∷ (b ∷ s)) r)
unfolding parse_pairs hex_bytes
pair_IsWrittenBy a b s r ha hb h =
    let (x, ex, lx, sx) = hex_digit-to_digit a ha in
    let (y, ey, ly, sy) = hex_digit-to_digit b hb in
    let (t, et, er) =
      >>=-eq-ok (parse_pairs s) (λ rest. ok ((x * 16 + y) ∷ rest))
        (rw (parse_pair_of_digits a b x y ha hb ex ey lx ly) at h) in
    (t, et, λ w. ground (arith, w.0, w.1, w.2, er, sx, sy))

parse_pairs_sound :
    (k : ℕ) (s r : Text)
    → length s ≡ k * 2
    → all is_lower_hex s ≡ true
    → parse_pairs s ≡ ok r
    → IsWrittenBy s r
unfolding parse_pairs hex_bytes
parse_pairs_sound k [] r n h p = ground arith
parse_pairs_sound k (a ∷ []) r n h p = absurd (omega arith)
parse_pairs_sound zero (a ∷ (b ∷ s)) r n h p = absurd (omega arith)
parse_pairs_sound (suc k) (a ∷ (b ∷ s)) r n h p =
    let (t, et, step) = pair_IsWrittenBy a b s r (ground arith) (ground arith) p in
    step (parse_pairs_sound k s t (omega arith) (ground arith) et)

not_ascii_hex : (b : ℕ) → 128 ≤ b → is_lower_hex b ≡ false
not_ascii_hex b h = ground arith

not-eq-false : (a b : ℕ) → not (a == b) ≡ false → a ≡ b
not-eq-false a b h = ground arith

not-false : (b : Bool) → not b ≡ false → b ≡ true
not-false b h = ground arith

parsed :
    (v r : Text)
    → parse v ≡ ok r
    → (d : Text) × (strip_prefix prefix v ≡ some d)
      × (length (bytes d) ≡ 64)
      × (all is_lower_hex (bytes d) ≡ true)
      × (parse_pairs (bytes d) ≡ ok r)
unfolding parse
parsed v r h =
    let (d, stripped, checks) = >>=-eq-ok (ok_or (strip_prefix prefix v) missing_prefix) _ h in
    let (size, checks') = reject-eq-ok _ _ _ checks in
    let (hex, pairs) = reject-eq-ok _ _ _ checks' in
    (d, ok_or-eq-ok _ _ stripped, not-eq-false _ _ size, not-false _ hex, pairs)

-- A text that parses is the printed form of the digest that it parses to, so each digest has only
-- one accepted text; and the result is a digest, 32 bytes.
pub show-parse : (v : Text) (r : Revision) → parse v ≡ ok r → (show r ≡ v) × IsDigest r
unfolding show
show-parse v r h =
    let (d, stripped, size, hex, pairs) = parsed v r h in
    let same : bytes d ≡ d =
      bytes_of_ascii d
        (lower_hex_is_ascii d (sym (all-bytes is_lower_hex d not_ascii_hex) ∙ hex)) in
    let (written, count, small) = parse_pairs_sound 32 (bytes d) r size hex pairs in
    (
      ap (λ t. prefix ++ t) (written ∙ same) ∙ sym (strip_prefix-eq-some prefix v d stripped),
      (omega (arith, count, size), small),
    )
