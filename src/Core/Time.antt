-- ===== src/Core/Time.antt =====
-- Values of the `time` crate, as far as the sources read them. An `OffsetDateTime` is its instant,
-- which is all that its `==` and `<` compare, counted in nanoseconds from the earliest one, with the
-- six calendar fields of its own offset. A year is 0 to 9999, as in the RFC 3339 texts that carry it.
use agent_knowledge.Prelude.{ℕ, Bool, ltb, leb, ◌==◌, nat_eq}

pub record OffsetDateTime : Type 0 where
  pub instant : ℕ
  pub year : ℕ
  pub month : ℕ
  pub day : ℕ
  pub hour : ℕ
  pub minute : ℕ
  pub second : ℕ

abbrev pub is_before : OffsetDateTime → OffsetDateTime → Bool
is_before a b = ltb a.instant b.instant

abbrev pub is_at_most : OffsetDateTime → OffsetDateTime → Bool
is_at_most a b = leb a.instant b.instant

abbrev pub is_same : OffsetDateTime → OffsetDateTime → Bool
is_same a b = a.instant == b.instant
