-- ===== src/Queue/Batch.antt =====
-- The selection and the claims of a batch: crates/queue/src/file_queue/worker/batch.rs. The heap of the
-- candidates is the list that `into_sorted_vec` makes of it, and the directory that is read the list of the
-- entries still to come. The writes of an operation that fails are left out, and the clock stands still.
pub mod Selection
pub mod Scanning
pub mod Continuation
pub mod Snapshot
pub mod Calls
pub mod Rounds
pub mod Termination
pub mod Frames
pub mod Validated
pub mod Outcome
mod Tests
use agent_knowledge.Prelude.{
  ℕ, zero, suc, ◌+◌, ◌-◌, ◌^◌, Bool, true, false, not, ◌&&◌, ◌||◌, Option, none, some, List, [],
  ◌∷◌, ◌==◌, nat_eq, list_eq, if◌then◌else◌, ltb, leb, length, Result, ok, err, ◌>>=◌, ◌>>◌, reject,
  ok_or, map_err, Text, text,
}
use agent_knowledge.Core.Time.{OffsetDateTime}
use agent_knowledge.Core.Id.{RequestId, BatchId, UlidCrate, parse_id}
use agent_knowledge.Queue.Disk.{
  QueueState, pending, AcceptanceMetadata, Package, Disk, Effect, commit,
}
use agent_knowledge.Queue.Failures.{
  WorkerQueueError, invalid_phase_metadata, corrupt_package, corrupt_state, invalid_pending_entry,
  batch_scan_failed, invalid_batch_limits, processing_scan_in_progress,
  processing_recovery_required, pending_observation_scan_in_progress, batch_scan_changed,
  batch_scan_in_progress, invalid_batch_snapshot, worker_code,
}
use agent_knowledge.Queue.Session.{
  PendingCandidate, DirEntry, PendingBatchScan, default_scan, entries_of, is_some_list, is_active,
  WorkerSession, ensure_recovery_complete, require_processing_recovery, current_maximum_sequence,
  entry_request,
}
use agent_knowledge.Queue.Claims.{
  ClaimedPackage, revalidate_accepted, phase_at, next_attempt, prepare_claim, claim_prepared,
}
use agent_knowledge.Queue.Results.{fail_pending}

-- `cmp`, as `<=`.
abbrev pub candidate_leb : PendingCandidate → PendingCandidate → Bool
candidate_leb a b =
    ltb a.sequence b.sequence || (a.sequence == b.sequence && leb a.request_id b.request_id)

-- `BinaryHeap::push` and `BinaryHeap::pop`
unfoldable pub push : PendingCandidate → List PendingCandidate → List PendingCandidate
push c [] = c ∷ []
push c (x ∷ xs) = let rest = push c xs in if candidate_leb c x then c ∷ (x ∷ xs) else x ∷ rest

abbrev pub pop : List PendingCandidate → List PendingCandidate
pop [] = []
pop (x ∷ []) = []
pop (x ∷ (y ∷ xs)) = x ∷ pop (y ∷ xs)

-- The end of `retain_pending_candidate`.
unfoldable pub retain : ℕ → List PendingCandidate → PendingCandidate → List PendingCandidate
retain maximum candidates c =
    let pushed = push c candidates in if ltb maximum (length pushed) then pop pushed else pushed

unfoldable pub check_sequence :
    Disk → ℕ → RequestId → ℕ → Result WorkerQueueError (Option PendingCandidate)
check_sequence d maximum id sequence =
    let candidate : Result WorkerQueueError (Option PendingCandidate) =
      next_attempt (phase_at (d.node pending id)) id pending >>= λ n.
      ok (some (record { sequence = sequence; request_id = id })) in
    if ltb maximum sequence
    then (reject (ltb (current_maximum_sequence d) sequence)
          (corrupt_state id pending (text "acceptance sequence exceeds the queue allocation state"))
        >> ok none)
    else candidate

unfoldable pub inspect_pending_candidate :
    Disk → ℕ → RequestId → Result WorkerQueueError (Option PendingCandidate)
inspect_pending_candidate d maximum id = do
  contents ← revalidate_accepted (d.node pending id) id pending
  reject (not (contents.request_id == id))
      (corrupt_state id pending (text "accepted package identity does not match its queue entry"))
  acceptance ←
      ok_or contents.acceptance
        (corrupt_state id pending (text "accepted package is missing acceptance metadata"))
  check_sequence d maximum id acceptance.sequence

-- The errors for which a request is failed.
abbrev pub is_corruption : WorkerQueueError → Bool
is_corruption (corrupt_package id s e) = true
is_corruption (WorkerQueueError.corrupt_state id s detail) = true
is_corruption invalid_phase_metadata = true
is_corruption _ = false

abbrev pub saturating_increment : ℕ → ℕ
saturating_increment n = if ltb (n + 1) (2 ^ 64) then n + 1 else n

-- A request that is corrupt is failed; one that is newer than the snapshot is passed over.
unfoldable pub retain_request :
    BatchId
    → ℕ
    → OffsetDateTime
    → Disk
    → PendingBatchScan
    → RequestId
    → Result WorkerQueueError (Disk × PendingBatchScan)
retain_request batch maximum now d scan id =
    elim (inspect_pending_candidate d scan.maximum_sequence id) [
      | ok (some c) ↦ ok (d, record scan { candidates = retain maximum scan.candidates c })
      | ok none ↦ ok (d, scan)
      | err e ↦
          if is_corruption e
          then (fail_pending id batch (worker_code e) now d >>= λ done. ok (
            commit done.0 d,
            record scan { failed_requests = saturating_increment scan.failed_requests },
          ))
          else err e
    ]

-- Why the loop over the entries ends.
pub data LoopEnd : Type 0 where
  stopped : WorkerQueueError → LoopEnd
  complete bounded : LoopEnd

pub record Scanned : Type 0 where
  pub disk : Disk
  pub scan : PendingBatchScan
  pub count : ℕ
  pub loop_end : LoopEnd

abbrev pub counted : Scanned → Scanned
counted s = record s { count = s.count + 1 }

module _ (ulid : UlidCrate) (batch : BatchId) (maximum : ℕ) (now : OffsetDateTime) where
  abbrev pub retain_pending_candidate :
      Disk → PendingBatchScan → DirEntry → Result WorkerQueueError (Disk × PendingBatchScan)
  retain_pending_candidate d scan entry = entry_request ulid invalid_pending_entry entry >>= λ id.
      retain_request batch maximum now d scan id

  abbrev pub resume :
      (Disk → PendingBatchScan → Scanned)
      → Disk
      → PendingBatchScan
      → Result WorkerQueueError (Disk × PendingBatchScan)
      → Scanned
  resume rest d scan (ok (f, next)) = counted (rest f next)
  resume rest d scan (err cause) = record {
    disk = d;
    scan = scan;
    count = 1;
    loop_end = stopped cause;
  }

  -- One turn of the loop, and the rest of it.
  abbrev pub scan_entry :
      (Disk → PendingBatchScan → Scanned) → Disk → PendingBatchScan → List DirEntry → Scanned
  scan_entry rest d scan [] = record { disk = d; scan = scan; count = 0; loop_end = complete }
  scan_entry rest d scan (e ∷ entries) =
      let read = record scan { entries = some entries } in
      resume rest d read (retain_pending_candidate d read e)

  -- The loop of `claim_batch`, which reads at most this many entries.
  unfoldable pub scan_entries : ℕ → Disk → PendingBatchScan → Scanned
  scan_entries zero d scan = record { disk = d; scan = scan; count = 0; loop_end = bounded }
  scan_entries (suc n) d scan =
      scan_entry (λ f next. scan_entries n f next) d scan (entries_of scan)
