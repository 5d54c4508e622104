-- ===== src/Queue/Batch/Calls.antt =====
-- The calls of `claim_batch` in crates/queue/src/file_queue/worker/batch.rs, and the claims at the end.
use agent_knowledge.Prelude.{
  ℕ, false, not, ◌||◌, Option, none, some, List, [], ◌∷◌, ◌==◌, nat_eq, list_eq, if◌then◌else◌, ltb,
  length, Result, ok, err, ◌>>=◌, ◌>>◌, reject, ok_or,
}
use agent_knowledge.Core.Time.{OffsetDateTime}
use agent_knowledge.Core.Id.{RequestId, BatchId, UlidCrate}
use agent_knowledge.Queue.Disk.{Package, Disk, commit}
use agent_knowledge.Queue.Failures.{
  WorkerQueueError, batch_scan_failed, invalid_batch_limits, processing_scan_in_progress,
  pending_observation_scan_in_progress, batch_scan_changed, invalid_batch_snapshot,
}
use agent_knowledge.Queue.Session.{
  PendingCandidate, DirEntry, PendingBatchScan, default_scan, is_some_list, is_active,
  WorkerSession, ensure_recovery_complete, require_processing_recovery, current_maximum_sequence,
}
use agent_knowledge.Queue.Claims.{ClaimedPackage, prepare_claim, claim_prepared}
use agent_knowledge.Queue.Batch.{Scanned, stopped, complete, bounded, scan_entries}

pub data BatchClaimOutcome : Type 0 where
  scanning : ℕ → ℕ → ℕ → BatchClaimOutcome
  claimed : List ClaimedPackage → ℕ → BatchClaimOutcome

abbrev pub with_scan_failures : WorkerQueueError → ℕ → WorkerQueueError
with_scan_failures error failed = if failed == 0 then error else batch_scan_failed failed error

abbrev pub prepare_claims :
    Disk → List PendingCandidate → Result WorkerQueueError (List (RequestId × Package))
prepare_claims d [] = ok []
prepare_claims d (c ∷ cs) = do
  contents ← prepare_claim d c.request_id
  rest ← prepare_claims d cs
  ok ((c.request_id, contents) ∷ rest)

abbrev pub cons_claim :
    ClaimedPackage
    → Disk × Result WorkerQueueError (List ClaimedPackage)
    → Disk × Result WorkerQueueError (List ClaimedPackage)
cons_claim c (d, rest) = (d, rest >>= λ cs. ok (c ∷ cs))

-- The loop over the prepared claims, each of which is on the disk before the next.
unfoldable pub claim_all :
    BatchId
    → OffsetDateTime
    → Disk
    → List (RequestId × Package)
    → Disk × Result WorkerQueueError (List ClaimedPackage)
claim_all batch now d [] = (d, ok [])
claim_all batch now d (p ∷ ps) = elim (claim_prepared p.0 batch p.1 now d) [
  | ok (xs, c) ↦ cons_claim c (claim_all batch now (commit xs d) ps)
  | err e ↦ (d, err e)
]

-- The checks at the beginning of `claim_batch`.
unfoldable pub check_batch :
    BatchId → ℕ → ℕ → Option ℕ → WorkerSession → Result WorkerQueueError (Unit {0})
check_batch batch maximum_entries maximum requested s = do
  let scan = s.pending_scan
  reject (maximum_entries == 0 || maximum == 0) invalid_batch_limits
  ensure_recovery_complete s
  reject (is_some_list s.processing_scan) processing_scan_in_progress
  reject (is_active s.pending_observation) pending_observation_scan_in_progress
  elim scan.batch_id [
    | some active ↦
        reject
          (not (active == batch)
            || (not (scan.maximum_requests == maximum) || elim requested [
              | some sequence ↦ not (sequence == scan.maximum_sequence)
              | none ↦ false
            ]))
          (batch_scan_changed active)
    | none ↦ ok tt
  ]

-- The scan that a call continues, or the one that it begins with the entries of the directory.
unfoldable pub begin_scan :
    BatchId
    → ℕ
    → Option ℕ
    → Option (List DirEntry)
    → Disk
    → PendingBatchScan
    → Result WorkerQueueError PendingBatchScan
begin_scan batch maximum requested listing d scan = elim scan.entries [
  | some entries ↦ ok scan
  | none ↦ do
    let sequence : ℕ = elim requested [ some n ↦ n | none ↦ current_maximum_sequence d ]
    reject (ltb (current_maximum_sequence d) sequence) invalid_batch_snapshot
    entries ← ok_or listing WorkerQueueError.io
    ok (record scan {
      entries = some entries;
      batch_id = some batch;
      maximum_requests = maximum;
      maximum_sequence = sequence;
    })
]

abbrev pub Called : Type 0
Called = WorkerSession × Disk × Result WorkerQueueError BatchClaimOutcome

abbrev pub reset_scan : WorkerSession → WorkerSession
reset_scan s = record s { pending_scan = default_scan }

abbrev pub finish_claims :
    WorkerSession → ℕ → Disk × Result WorkerQueueError (List ClaimedPackage) → Called
finish_claims s failures (d, ok claims) = (s, d, ok (claimed claims failures))
finish_claims s failures (d, err e) =
    (require_processing_recovery s, d, err (with_scan_failures e failures))

unfoldable pub claim_candidates :
    BatchId → OffsetDateTime → WorkerSession → Disk → PendingBatchScan → Called
claim_candidates batch now s d scan = elim (prepare_claims d scan.candidates) [
  | ok prepared ↦ finish_claims s scan.failed_requests (claim_all batch now d prepared)
  | err e ↦ (s, d, err (with_scan_failures e scan.failed_requests))
]

-- The end of a call, after the loop.
unfoldable pub finish_scan : BatchId → OffsetDateTime → WorkerSession → Scanned → Called
finish_scan batch now s r = elim r.loop_end [
  | stopped cause ↦ (reset_scan s, r.disk, err (with_scan_failures cause r.scan.failed_requests))
  | bounded ↦ (
    record s { pending_scan = r.scan },
    r.disk,
    ok (scanning r.count (length r.scan.candidates) r.scan.failed_requests),
  )
  | complete ↦ claim_candidates batch now (reset_scan s) r.disk r.scan
]

unfoldable pub claim_batch :
    UlidCrate
    → BatchId
    → ℕ
    → ℕ
    → Option ℕ
    → OffsetDateTime
    → Option (List DirEntry)
    → WorkerSession
    → Disk
    → Called
claim_batch ulid batch maximum_entries maximum requested now listing s d =
    let begun : Result WorkerQueueError PendingBatchScan =
      check_batch batch maximum_entries maximum requested s
      >> begin_scan batch maximum requested listing d s.pending_scan in
    elim begun [
      | err e ↦ (s, d, err e)
      | ok scan ↦
          finish_scan batch now s (scan_entries ulid batch maximum now maximum_entries d scan)
    ]
