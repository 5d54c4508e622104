-- ===== src/Worker/Schedule.antt =====
-- crates/worker/src/schedule.rs: when the pending requests of the queue are closed into a batch, with the
-- snapshot of crates/queue/src/file_queue/worker/pending.rs that this is decided on. A `Duration` of the time crate is
-- its whole nanoseconds; `OffsetDateTime::saturating_add` of that crate is a parameter.
pub mod Readiness
mod Tests
use agent_knowledge.Prelude.{
  ℕ, Bool, true, false, not, Option, none, some, Result, ok, err, ◌>>=◌, ◌>>◌, reject, ltb, leb,
  ◌==◌, nat_eq, if◌then◌else◌,
}
use agent_knowledge.Core.Time.{OffsetDateTime, is_before, is_at_most}

-- Signed numbers over the native ones.
pub data ℤ : Type 0 where
  pos : ℕ → ℤ
  negsuc : ℕ → ℤ

abbrev pub Duration : Type 0
Duration = ℤ

abbrev pub is_positive : Duration → Bool
is_positive (pos n) = ltb 0 n
is_positive (negsuc n) = false

pub record BatchSchedule : Type 0 where
  pub debounce : Duration
  pub maximum_age : Duration

pub data BatchScheduleError : Type 0 where
  invalid_debounce invalid_maximum_age : BatchScheduleError

unfoldable pub new : Duration → Duration → Result BatchScheduleError BatchSchedule
new debounce maximum_age = do
  reject (not (is_positive debounce)) invalid_debounce
  reject (not (is_positive maximum_age)) invalid_maximum_age
  ok (record { debounce = debounce; maximum_age = maximum_age })

pub record PendingSnapshot : Type 0 where
  pub maximum_sequence : ℕ
  pub requests : ℕ
  pub has_invalid_acceptance : Bool
  pub oldest_accepted_at : Option OffsetDateTime
  pub newest_accepted_at : Option OffsetDateTime

pub data BatchCloseReason : Type 0 where
  invalid_acceptance maximum_requests maximum_age debounce : BatchCloseReason

pub data BatchReadiness : Type 0 where
  empty : BatchReadiness
  waiting : OffsetDateTime → BatchReadiness
  ready : BatchCloseReason → BatchReadiness

-- `Ord::min`, which answers the first of two equal values.
abbrev pub min_time : OffsetDateTime → OffsetDateTime → OffsetDateTime
min_time a b = if is_before b a then b else a

module _ (saturating_add : OffsetDateTime → Duration → OffsetDateTime) where
  -- The comparisons with the two thresholds.
  abbrev pub at_thresholds : OffsetDateTime → OffsetDateTime → OffsetDateTime → BatchReadiness
  at_thresholds maximum_age_at debounce_at now =
      if is_at_most maximum_age_at now
      then ready maximum_age
      else if is_at_most debounce_at now
      then ready debounce
      else waiting (min_time maximum_age_at debounce_at)

  abbrev pub with_times :
      Option OffsetDateTime
      → Option OffsetDateTime
      → BatchSchedule
      → OffsetDateTime
      → BatchReadiness
  with_times none newest schedule now = ready invalid_acceptance
  with_times (some oldest) none schedule now = ready invalid_acceptance
  with_times (some oldest) (some newest) schedule now =
      at_thresholds (saturating_add oldest schedule.maximum_age)
        (saturating_add newest schedule.debounce) now

  -- `readiness`, and `readiness_for` that it calls. The limit is not zero.
  unfoldable pub readiness : BatchSchedule → PendingSnapshot → ℕ → OffsetDateTime → BatchReadiness
  readiness schedule snapshot limit now =
      if snapshot.requests == 0
      then empty
      else if snapshot.has_invalid_acceptance
      then ready invalid_acceptance
      else if leb limit snapshot.requests
      then ready maximum_requests
      else with_times snapshot.oldest_accepted_at snapshot.newest_accepted_at schedule now
