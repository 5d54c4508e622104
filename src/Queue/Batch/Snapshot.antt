-- ===== src/Queue/Batch/Snapshot.antt =====
-- What the scan of the pending requests selects, in as many calls as it takes.
use mathlib.Core.List.{Permᴰ}
use mathlib.Core.List.Permᴰ
use agent_knowledge.Prelude.{ℕ, ◌≡◌, Option, List, [], ◌∷◌, none, some, Result, ok, ◌>>=◌}
use agent_knowledge.Core.Time.{OffsetDateTime}
use agent_knowledge.Core.Id.{BatchId, UlidCrate}
use agent_knowledge.Queue.Disk.{Disk}
use agent_knowledge.Queue.Failures.{WorkerQueueError, invalid_pending_entry}
use agent_knowledge.Queue.Session.{PendingCandidate, DirEntry, PendingBatchScan, entry_request}
use agent_knowledge.Queue.Batch.{Scanned, complete, retain, inspect_pending_candidate}
use agent_knowledge.Queue.Batch.Selection.{retained}

abbrev with_candidate : Option PendingCandidate → List PendingCandidate → List PendingCandidate
with_candidate none cs = cs
with_candidate (some c) cs = c ∷ cs

module _ (ulid : UlidCrate) where
  -- The candidates of all the entries, up to a sequence, where none of them is corrupt.
  unfoldable pub candidates_of :
      Disk → ℕ → List DirEntry → Result WorkerQueueError (List PendingCandidate)
  candidates_of d newest [] = ok []
  candidates_of d newest (e ∷ entries) = do
    id ← entry_request ulid invalid_pending_entry e
    c ← inspect_pending_candidate d newest id
    rest ← candidates_of d newest entries
    ok (with_candidate c rest)

  module _ (batch : BatchId) (maximum : ℕ) (now : OffsetDateTime) where
    abbrev retain_found : PendingBatchScan → Option PendingCandidate → PendingBatchScan
    retain_found scan none = scan
    retain_found scan (some c) = record scan { candidates = retain maximum scan.candidates c }

    -- The end of a scan that found these candidates.
    record Selected (d : Disk) (scan : PendingBatchScan) (cs : List PendingCandidate) (r : Scanned)
        : Type 0 where
      same_disk : r.disk ≡ d
      ends : r.loop_end ≡ complete
      keeps : r.scan.candidates ≡ retained maximum scan.candidates cs
      same_failures : r.scan.failed_requests ≡ scan.failed_requests
