-- ===== src/Core/Id.antt =====
-- crates/core/src/id.rs: the four identifier types, which wrap a `Ulid` of the `ulid` crate, a number
-- of 128 bits. Parsing and printing one are that crate's, and a parameter here.
mod Tests
use agent_knowledge.Prelude.{
  ℕ, ◌≡◌, refl, ◌∙◌, sym, Bool, true, false, not, Option, none, some, arith, ◌==◌, ==_iff, ==_self,
  nat_eq, list_eq, Result, ok, err, ◌>>=◌, ◌>>◌, reject, Text, >>=-eq-ok, reject-eq-ok,
}

abbrev pub Ulid : Type 0
Ulid = ℕ

abbrev pub RequestId : Type 0
RequestId = Ulid

abbrev pub BatchId : Type 0
BatchId = Ulid

abbrev pub DocumentId : Type 0
DocumentId = Ulid

abbrev pub SessionId : Type 0
SessionId = Ulid

-- The errors of the `ulid` crate.
pub data DecodeError : Type 0 where
  invalid_length invalid_char : DecodeError

-- `Ulid::from_str` and `Ulid::to_string`.
pub record UlidCrate : Type 0 where
  pub from_str : Text → Result DecodeError Ulid
  pub to_string : Ulid → Text

module _ (ulid : UlidCrate) where
  unfoldable pub parse_id : Text → Result DecodeError Ulid
  parse_id value = do
    parsed ← ulid.from_str value
    reject (not (ulid.to_string parsed == value)) invalid_char
    ok parsed

  parse_id_sound :
      (value : Text) (parsed id : Ulid)
      → (reject (not (ulid.to_string parsed == value)) invalid_char >> ok parsed) ≡ ok id
      → ulid.to_string id ≡ value
  parse_id_sound value parsed id h = ground (arith, ==_iff (ulid.to_string parsed) value)

  -- Each identifier has one accepted text, its printed form: a text is accepted as an identifier
  -- only if printing the identifier gives that text, so two accepted texts of one identifier are equal.
  pub parse_id_canonical :
      (v w : Text) (id : Ulid)
      → parse_id v ≡ ok id
      → parse_id w ≡ ok id
      → (ulid.to_string id ≡ v) × (v ≡ w)
  unfolding parse_id
  parse_id_canonical v w id hv hw =
      let (p, _, ev) = >>=-eq-ok (ulid.from_str v) _ hv in
      let (q, _, ew) = >>=-eq-ok (ulid.from_str w) _ hw in
      let printed = parse_id_sound v p id ev in (printed, sym printed ∙ parse_id_sound w q id ew)

  -- The printed form of an identifier that the crate reads back is accepted.
  pub parse_id-to_string :
      (id : Ulid) → ulid.from_str (ulid.to_string id) ≡ ok id → parse_id (ulid.to_string id) ≡ ok id
  unfolding parse_id
  parse_id-to_string id h = ground (arith, h, ==_self (ulid.to_string id))
