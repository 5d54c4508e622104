-- ===== src/Core/Revision/Tests.antt =====
-- The unit tests of crates/core/src/revision.rs, and the round trips at one revision.
use agent_knowledge.Prelude.{
  ◌≡◌, refl, [], ◌∷◌, ◌++◌, ok, err, Text, text, bytes, strip_prefix, is_utf8,
}
use agent_knowledge.Core.Revision.{
  Revision, IsDigest, missing_prefix, invalid_length, invalid_hex, show, parse,
}
use agent_knowledge.Core.Revision.RoundTrip.{show-parse}

abbrev eight : Revision
eight = 0x01 ∷ 0x23 ∷ 0x45 ∷ 0x67 ∷ 0x89 ∷ 0xab ∷ 0xcd ∷ 0xef ∷ []

abbrev sample : Revision
sample = eight ++ (eight ++ (eight ++ eight))

abbrev sample_text : Text
sample_text = text "sha256:0123456789abcdef0123456789abcdef0123456789abcdef0123456789abcdef"

parses : parse sample_text ≡ ok sample
unfolding parse strip_prefix bytes is_utf8
parses = refl

rejects :
    (parse (text "0123") ≡ err missing_prefix)
    × (parse (text "sha256:0123") ≡ err (invalid_length 4))
    × (parse (text "sha256:ABCDEFABCDEFABCDEFABCDEFABCDEFABCDEFABCDEFABCDEFABCDEFABCDEFABCD")
        ≡ err invalid_hex)
unfolding parse strip_prefix bytes
rejects = (refl, refl, refl)

show-parse_example : (show sample ≡ sample_text) × IsDigest sample
show-parse_example = show-parse sample_text sample parses
