-- ===== src/Queue/Batch/Rounds.antt =====
-- A batch whose pending requests are scanned in several calls of `claim_batch`,
-- crates/queue/src/file_queue/worker/batch.rs. The caller calls again while the answer is `Scanning`.
use agent_knowledge.Prelude.{
  ℕ, zero, suc, ◌≡◌, refl, ◌∙◌, ap, ◌≢◌, true, Option, none, some, List, ==_self, nat_eq, list_eq,
  arith, length, Result, ok, err, ◌>>◌,
}
use agent_knowledge.Core.Time.{OffsetDateTime}
use agent_knowledge.Core.Id.{BatchId, UlidCrate}
use agent_knowledge.Queue.Disk.{Disk}
use agent_knowledge.Queue.Failures.{WorkerQueueError}
use agent_knowledge.Queue.Session.{
  DirEntry, PendingBatchScan, WorkerSession, entries_of, is_some_list, ensure_recovery_complete,
}
use agent_knowledge.Queue.Batch.{Scanned, LoopEnd, stopped, complete, bounded, scan_entries}
use agent_knowledge.Queue.Batch.Scanning.{add_count}
use agent_knowledge.Queue.Batch.Calls.{
  BatchClaimOutcome, scanning, claimed, Called, check_batch, begin_scan, reset_scan,
  claim_candidates, finish_scan, claim_batch,
}

abbrev pub answer : Called → Result WorkerQueueError BatchClaimOutcome
answer (s, d, a) = a

-- Another call follows only a call that answers `Scanning`.
abbrev pub again : (WorkerSession → Disk → Called) → Called → Called
again rest (s, d, ok (scanning count candidates failures)) = rest s d
again rest (s, d, ok (claimed claims failures)) = (s, d, ok (claimed claims failures))
again rest (s, d, err e) = (s, d, err e)

-- A call that does not answer `Scanning`.
abbrev pub IsFinal : Called → Type 0
IsFinal c = (a b e : ℕ) → answer c ≢ ok (scanning a b e)

pub again-IsFinal :
    (rest : WorkerSession → Disk → Called) (c : Called) → IsFinal c → again rest c ≡ c
again-IsFinal rest (s, d, ok (scanning a b e)) f = absurd (f a b e refl)
again-IsFinal rest (s, d, ok (claimed claims failures)) f = refl
again-IsFinal rest (s, d, err e) f = refl

abbrev pub set_scan : WorkerSession → PendingBatchScan → WorkerSession
set_scan s scan = record s { pending_scan = scan }

module _ (batch : BatchId) (now : OffsetDateTime) where
  pub claim_candidates-IsFinal :
      (s : WorkerSession) (d : Disk) (scan : PendingBatchScan)
      → IsFinal (claim_candidates batch now s d scan)
  unfolding claim_candidates
  claim_candidates-IsFinal s d scan = ground arith

  pub finish_scan-IsFinal :
      (s : WorkerSession) (r : Scanned) → r.loop_end ≢ bounded → IsFinal (finish_scan batch now s r)
  unfolding finish_scan
  finish_scan-IsFinal s r n = ends r.loop_end refl
    where
      ends : (l : LoopEnd) → r.loop_end ≡ l → IsFinal (finish_scan batch now s r)
      ends bounded e = absurd (n e)
      ends complete e = rw e (claim_candidates-IsFinal (reset_scan s) r.disk r.scan)
      ends (stopped cause) e = rw e λ a b c q. cc

  pub again-bounded :
      (rest : WorkerSession → Disk → Called) (s : WorkerSession) (r : Scanned)
      → r.loop_end ≡ bounded
      → again rest (finish_scan batch now s r) ≡ rest (set_scan s r.scan) r.disk
  unfolding finish_scan
  again-bounded rest s r e = rw e refl

  -- The end of a scan forgets the scan that was kept before, and how many entries were read.
  pub finish_scan-set_scan :
      (s : WorkerSession) (scan : PendingBatchScan) (r : Scanned) (n : ℕ)
      → r.loop_end ≢ bounded
      → finish_scan batch now (set_scan s scan) r ≡ finish_scan batch now s (add_count n r)
  unfolding finish_scan
  finish_scan-set_scan s scan r n b = ends r.loop_end refl
    where
      ends :
          (l : LoopEnd)
          → r.loop_end ≡ l
          → finish_scan batch now (set_scan s scan) r ≡ finish_scan batch now s (add_count n r)
      ends bounded e = absurd (b e)
      ends complete e = rw e refl
      ends (stopped cause) e = rw e refl

-- Only that the limit is positive matters to the checks.
pub check_batch-positive :
    (batch : BatchId) (n m maximum : ℕ) (requested : Option ℕ) (s : WorkerSession)
    → n ≢ 0
    → m ≢ 0
    → check_batch batch n maximum requested s ≡ check_batch batch m maximum requested s
unfolding check_batch
check_batch-positive batch n m maximum requested s p q = ground arith

pub check_batch-again :
    (batch : BatchId) (n maximum : ℕ) (requested : Option ℕ) (listing : Option (List DirEntry))
    (d : Disk) (s : WorkerSession) (scan next : PendingBatchScan)
    → check_batch batch n maximum requested s ≡ ok tt
    → begin_scan batch maximum requested listing d s.pending_scan ≡ ok scan
    → next.batch_id ≡ scan.batch_id
    → next.maximum_requests ≡ scan.maximum_requests
    → next.maximum_sequence ≡ scan.maximum_sequence
    → check_batch batch n maximum requested (set_scan s next) ≡ ok tt
unfolding check_batch begin_scan ensure_recovery_complete
check_batch-again batch n maximum requested listing d s scan next h k b m q =
    ground (arith, ==_self batch, ==_self maximum, ==_self {A = ℕ})

-- The entries that are still to be read: of the scan that is kept, or else of the directory.
abbrev pub left : Option (List DirEntry) → WorkerSession → ℕ
left listing s = elim s.pending_scan.entries [
  | some entries ↦ length entries
  | none ↦ elim listing [ some entries ↦ length entries | none ↦ 0 ]
]

module _ (batch : BatchId) (maximum : ℕ) (requested : Option ℕ) (listing : Option (List DirEntry))
    (d : Disk) where
  pub begin_scan-left :
      (s : WorkerSession) (scan : PendingBatchScan)
      → begin_scan batch maximum requested listing d s.pending_scan ≡ ok scan
      → (length (entries_of scan) ≡ left listing s) × (is_some_list scan.entries ≡ true)
  unfolding begin_scan
  begin_scan-left s scan h = ground arith

  pub begin_scan-open :
      (scan : PendingBatchScan)
      → is_some_list scan.entries ≡ true
      → begin_scan batch maximum requested listing d scan ≡ ok scan
  unfolding begin_scan
  begin_scan-open scan h = ground arith

module _ (ulid : UlidCrate) (batch : BatchId) (n maximum : ℕ) (requested : Option ℕ)
    (now : OffsetDateTime) (listing : Option (List DirEntry)) where
  -- The calls for one batch, each of at most `n` entries: after the first, as many more as are given.
  unfoldable pub claim_calls : ℕ → WorkerSession → Disk → Called
  claim_calls zero s d = claim_batch ulid batch n maximum requested now listing s d
  claim_calls (suc calls) s d =
      again (λ t f. claim_calls calls t f)
        (claim_batch ulid batch n maximum requested now listing s d)

  -- The call behind its checks.
  abbrev after : ℕ → WorkerSession → Disk → Result WorkerQueueError PendingBatchScan → Called
  after m s d (err e) = (s, d, err e)
  after m s d (ok scan) = finish_scan batch now s (scan_entries ulid batch maximum now m d scan)

  pub claim_batch-begun :
      (m : ℕ) (s : WorkerSession) (d : Disk) (scan : PendingBatchScan)
      → check_batch batch m maximum requested s ≡ ok tt
      → begin_scan batch maximum requested listing d s.pending_scan ≡ ok scan
      → claim_batch ulid batch m maximum requested now listing s d
        ≡ finish_scan batch now s (scan_entries ulid batch maximum now m d scan)
  unfolding claim_batch
  claim_batch-begun m s d scan h k =
      ap (after m s d)
        (ap (λ c. c >> begin_scan batch maximum requested listing d s.pending_scan) h ∙ k)

  pub claim_batch-refused :
      (m : ℕ) (s : WorkerSession) (d : Disk) (e : WorkerQueueError)
      → (check_batch batch m maximum requested s
          >> begin_scan batch maximum requested listing d s.pending_scan)
        ≡ err e
      → claim_batch ulid batch m maximum requested now listing s d ≡ (s, d, err e)
  unfolding claim_batch
  claim_batch-refused m s d e h = ap (after m s d) h
