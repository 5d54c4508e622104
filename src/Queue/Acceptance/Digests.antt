-- ===== src/Queue/Acceptance/Digests.antt =====
-- The digest file that an acceptance writes is read back.
use agent_knowledge.Prelude.{
  ℕ, ◌≤◌, ◌≡◌, refl, ◌∙◌, ap, Bool, true, false, not, ◌&&◌, [], ◌∷◌, ◌++◌, arith, all, any, take,
  length, length-append, zero, suc, ◌==◌, nat_eq, ltb, ends_with_char, ok, Text, Bytes,
  bytes_of_ascii, is_utf8, is_utf8-nil, is_utf8-cons,
}
use agent_knowledge.Core.Id.{RequestId}
use agent_knowledge.Core.Revision.{IsDigest, hex_bytes, show, is_lower_hex, parse}
use agent_knowledge.Core.Revision.RoundTrip.{all-hex_bytes, length-hex_bytes, parse-show}
use agent_knowledge.Core.Markdown.{strip_last}
use agent_knowledge.Queue.Disk.{QueueState, PackageDigest, holds}
use agent_knowledge.Queue.Lookup.{parse_digest, read_stored_digest}
use agent_knowledge.Queue.Acceptance.{digest_contents}

-- An ASCII character other than a line feed.
abbrev is_inline : ℕ → Bool
is_inline c = ltb c 128 && not (c == b'\n')

hex_is_inline : (s : Text) → all is_lower_hex s ≡ true → all is_inline s ≡ true
hex_is_inline [] h = refl
hex_is_inline (c ∷ s) h = ground (arith, hex_is_inline s)

inline_is_ascii : (s : Text) → all is_inline s ≡ true → all (λ c. ltb c 128) s ≡ true
inline_is_ascii [] h = refl
inline_is_ascii (c ∷ s) h = ground (arith, inline_is_ascii s)

show-is_inline : (r : PackageDigest) → IsDigest r → all is_inline (show r) ≡ true
unfolding show
show-is_inline r (size, small) = hex_is_inline (hex_bytes r) (all-hex_bytes r small)

length-show : (r : PackageDigest) → IsDigest r → length (show r) ≡ 71
unfolding show
length-show r (size, small) = omega (arith, length-hex_bytes r, size)

-- A line in a file that ends with it.
line_is_utf8 : (s : Text) → all is_inline s ≡ true → is_utf8 (s ++ (b'\n' ∷ [])) ≡ true
line_is_utf8 [] h = is_utf8-cons b'\n' [] (omega arith) ∙ is_utf8-nil
line_is_utf8 (c ∷ s) h = ground (arith, is_utf8-cons c (s ++ (b'\n' ∷ [])), line_is_utf8 s)

line_ends : (s : Text) → ends_with_char b'\n' (s ++ (b'\n' ∷ [])) ≡ true
line_ends [] = refl
line_ends (c ∷ []) = refl
line_ends (c ∷ (x ∷ s)) = line_ends (x ∷ s)

strip_last-line : (s : Text) → strip_last b'\n' (s ++ (b'\n' ∷ [])) ≡ s
unfolding strip_last
strip_last-line [] = refl
strip_last-line (c ∷ []) = refl
strip_last-line (c ∷ (x ∷ s)) = ap (λ t. c ∷ t) (strip_last-line (x ∷ s))

no_line_feed : (s : Text) → all is_inline s ≡ true → any (λ c. c == b'\n') s ≡ false
no_line_feed [] h = refl
no_line_feed (c ∷ s) h = ground (arith, no_line_feed s)

take_all : (n : ℕ) (s : Bytes) → length s ≤ n → take n s ≡ s
take_all zero [] h = refl
take_all zero (c ∷ s) h = ground arith
take_all (suc n) [] h = refl
take_all (suc n) (c ∷ s) h = ap (λ t. c ∷ t) (take_all n s (omega arith))

parse_digest_line :
    (s : Text) (id : RequestId) (state : QueueState) (g : PackageDigest)
    → all is_inline s ≡ true
    → length s ≡ 71
    → parse s ≡ ok g
    → parse_digest (s ++ (b'\n' ∷ [])) id state ≡ ok g
unfolding parse_digest
parse_digest_line s id state g inline size parsed =
    let long : length (s ++ (b'\n' ∷ [])) ≡ 72 =
      omega (arith, length-append s (b'\n' ∷ []), size) in
    rw
      (
        take_all 73 (s ++ (b'\n' ∷ [])) (omega arith),
        line_is_utf8 s inline,
        long,
        line_ends s,
        strip_last-line s,
        no_line_feed s inline,
        parsed,
      )
      refl

-- The digest file of an acceptance holds the digest.
pub read_stored_digest-digest_contents :
    (g : PackageDigest) (id : RequestId) (state : QueueState)
    → IsDigest g
    → read_stored_digest (holds (digest_contents g)) id state ≡ ok g
unfolding read_stored_digest
read_stored_digest-digest_contents g id state digest =
    let inline = show-is_inline g digest in
    rw (bytes_of_ascii (show g) (inline_is_ascii (show g) inline))
      (parse_digest_line (show g) id state g inline (length-show g digest) (parse-show g digest))
