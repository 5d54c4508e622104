-- ===== src/Worker/Schedule/Tests.antt =====
-- One snapshot of the queue, with a sum of times that does not saturate.
use agent_knowledge.Prelude.{◌+◌, ◌≤◌, ◌<◌, ◌≡◌, refl, ◌↔◌, ◌⊎◌, true, false, some}
use agent_knowledge.Core.Time.{OffsetDateTime, is_before, is_at_most}
use agent_knowledge.Core.Document.Tests.{noon}
use agent_knowledge.Worker.Schedule.{
  Duration, pos, negsuc, BatchSchedule, PendingSnapshot, waiting, readiness,
}
use agent_knowledge.Worker.Schedule.Readiness.{
  is_ready, IsDue, is_ready-readiness_iff, readiness-waiting,
}

abbrev plus : OffsetDateTime → Duration → OffsetDateTime
plus t (pos n) = record t { instant = t.instant + n }
plus t (negsuc n) = t

abbrev schedule : BatchSchedule
schedule = record { debounce = pos 30; maximum_age = pos 300 }

-- The first request at noon and the second of them 290 later.
abbrev snapshot : PendingSnapshot
snapshot = record {
  maximum_sequence = 2;
  requests = 2;
  has_invalid_acceptance = false;
  oldest_accepted_at = some noon;
  newest_accepted_at = some (plus noon (pos 290));
}

waits : readiness plus schedule snapshot 10 (plus noon (pos 295)) ≡ waiting (plus noon (pos 300))
unfolding readiness
waits = refl

readiness-waiting_example :
    (is_before (plus noon (pos 295)) (plus noon (pos 300)) ≡ true)
    × (is_ready (readiness plus schedule snapshot 10 (plus noon (pos 310)))
        ≡ is_at_most (plus noon (pos 300)) (plus noon (pos 310)))
readiness-waiting_example =
    readiness-waiting plus schedule snapshot 10 (plus noon (pos 295)) (plus noon (pos 300))
      (plus noon (pos 310)) waits

is_ready-readiness_iff_example :
    (is_ready (readiness plus schedule snapshot 10 (plus noon (pos 310))) ≡ true) ↔ (
      (0 < 2)
      × ((false ≡ true)
          ⊎ (10 ≤ 2)
          ⊎ IsDue plus schedule snapshot 10
              (plus noon (pos 310))
              (some noon)
              (some (plus noon (pos 290)))))
is_ready-readiness_iff_example =
    is_ready-readiness_iff plus schedule snapshot 10 (plus noon (pos 310))
