-- ===== src/Worker/Schedule/Readiness.antt =====
-- When a batch closes.
use agent_knowledge.Prelude.{
  ℕ, ◌≤◌, ◌<◌, ◌≡◌, ◌↔◌, ◌⊎◌, Bool, true, false, Option, none, some, arith, ok,
}
use agent_knowledge.Core.Time.{OffsetDateTime, is_before, is_at_most}
use agent_knowledge.Worker.Schedule.{
  Duration, is_positive, BatchSchedule, new, PendingSnapshot, BatchReadiness, empty, waiting, ready,
  with_times, readiness,
}

abbrev pub is_ready : BatchReadiness → Bool
is_ready empty = false
is_ready (waiting at) = false
is_ready (ready reason) = true

-- A schedule is made exactly of two positive durations.
pub new_iff :
    (debounce maximum_age : Duration)
    → (new debounce maximum_age ≡ ok (record { debounce = debounce; maximum_age = maximum_age }))
      ↔ ((is_positive debounce ≡ true) × (is_positive maximum_age ≡ true))
unfolding new
new_iff debounce maximum_age = ground arith

module _ (saturating_add : OffsetDateTime → Duration → OffsetDateTime) (schedule : BatchSchedule)
    (snapshot : PendingSnapshot) (limit : ℕ) (now : OffsetDateTime) where
  -- A snapshot is due when it lacks a time, or one of its two thresholds is reached.
  abbrev pub IsDue : Option OffsetDateTime → Option OffsetDateTime → Type 0
  IsDue none newest = Unit
  IsDue (some oldest) none = Unit
  IsDue (some oldest) (some newest) =
      ((saturating_add oldest schedule.maximum_age).instant ≤ now.instant)
      ⊎ ((saturating_add newest schedule.debounce).instant ≤ now.instant)

  IsDue-iff :
      (o n : Option OffsetDateTime)
      → (is_ready (with_times saturating_add o n schedule now) ≡ true) ↔ IsDue o n
  IsDue-iff none n = ground arith
  IsDue-iff (some o) none = ground arith
  IsDue-iff (some o) (some n) = ground arith

  -- A batch closes exactly when there are requests and one of them has invalid acceptance metadata, or
  -- they are as many as the limit, or a time is missing, or the oldest has waited the maximum age, or
  -- none has arrived for the debounce interval.
  pub is_ready-readiness_iff :
      (is_ready (readiness saturating_add schedule snapshot limit now) ≡ true) ↔ (
        (0 < snapshot.requests)
        × ((snapshot.has_invalid_acceptance ≡ true)
            ⊎ (limit ≤ snapshot.requests)
            ⊎ IsDue snapshot.oldest_accepted_at snapshot.newest_accepted_at))
  unfolding readiness
  is_ready-readiness_iff =
      ground (arith, IsDue-iff snapshot.oldest_accepted_at snapshot.newest_accepted_at)

  thresholds_sound :
      (o n : Option OffsetDateTime) {at : OffsetDateTime}
      → with_times saturating_add o n schedule now ≡ waiting at
      → (later : OffsetDateTime)
      → (is_before now at ≡ true)
        × (is_ready (with_times saturating_add o n schedule later) ≡ is_at_most at later)
  thresholds_sound none n h later = ground arith
  thresholds_sound (some o) none h later = ground arith
  thresholds_sound (some o) (some n) h later = ground arith

  -- The time that a waiting snapshot announces is in the future, and the same snapshot is ready at that
  -- time and after it, but at no time before it.
  pub readiness-waiting :
      (at later : OffsetDateTime)
      → readiness saturating_add schedule snapshot limit now ≡ waiting at
      → (is_before now at ≡ true)
        × (is_ready (readiness saturating_add schedule snapshot limit later) ≡ is_at_most at later)
  unfolding readiness
  readiness-waiting at later h =
      ground (arith, thresholds_sound snapshot.oldest_accepted_at snapshot.newest_accepted_at)
