-- ===== src/Core/Id/Tests.antt =====
-- The parsing of identifiers, with a printer of one letter.
use agent_knowledge.Prelude.{◌≡◌, refl, [], ◌∷◌, ok, err, Result, Text, text, list_beq}
use agent_knowledge.Core.Id.{Ulid, DecodeError, invalid_length, UlidCrate, parse_id}

abbrev first_char : Text → Result DecodeError Ulid
first_char [] = err invalid_length
first_char (c ∷ v) = ok c

abbrev letters : UlidCrate
letters = record { from_str = first_char; to_string = λ id. id ∷ [] }

accepted : parse_id letters (text "A") ≡ ok 65
unfolding parse_id list_beq
accepted = refl
