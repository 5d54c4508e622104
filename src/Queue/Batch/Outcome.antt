-- ===== src/Queue/Batch/Outcome.antt =====
-- What a call of `claim_batch` that claims a batch answers.
use agent_knowledge.Prelude.{
  ℕ, ◌≡◌, refl, sym, ◌∙◌, ap, nat_eq, Option, List, All, arith, length, Result, ok, err, ◌>>◌,
  >>=-eq-ok,
}
use agent_knowledge.Core.Time.{OffsetDateTime}
use agent_knowledge.Core.Id.{RequestId, BatchId, UlidCrate}
use agent_knowledge.Queue.Disk.{Package, Disk}
use agent_knowledge.Queue.Failures.{WorkerQueueError}
use agent_knowledge.Queue.Claims.{ClaimedPackage, validate_claimed}
use agent_knowledge.Queue.Session.{
  DirEntry, PendingBatchScan, WorkerSession, ensure_recovery_complete, ensure_no_active_scan,
}
use agent_knowledge.Queue.Batch.{Scanned, LoopEnd, stopped, complete, bounded, scan_entries}
use agent_knowledge.Queue.Batch.Calls.{
  BatchClaimOutcome, scanning, claimed, with_scan_failures, Called, reset_scan, prepare_claims,
  claim_all, check_batch, begin_scan, finish_claims, claim_candidates, finish_scan, claim_batch,
}
use agent_knowledge.Queue.Batch.Validated.{Claims, claim_all-validate_claimed}

-- The claims of a batch, and the session that is ready for them.
abbrev pub Owned : BatchId → Disk → List ClaimedPackage → Type 0
Owned batch f cs = All (λ c. (validate_claimed c f ≡ ok tt) × (c.token.batch_id ≡ batch)) cs

check_batch_ready :
    (batch : BatchId) (n m : ℕ) (requested : Option ℕ) (s : WorkerSession)
    → check_batch batch n m requested s ≡ ok tt
    → ensure_no_active_scan (reset_scan s) ≡ ok tt
unfolding check_batch ensure_no_active_scan ensure_recovery_complete
check_batch_ready batch n m requested s h = ground arith

finish_claims-Owned :
    (batch : BatchId) (now : OffsetDateTime) (s t : WorkerSession) (d f : Disk)
    (ps : List (RequestId × Package)) (k j : ℕ) (cs : List ClaimedPackage) (x : Claims)
    → claim_all batch now d ps ≡ x
    → finish_claims s k x ≡ (t, f, ok (claimed cs j))
    → Owned batch f cs × (t ≡ s)
finish_claims-Owned batch now s t d f ps k j cs (g, ok bs) q h =
    (claim_all-validate_claimed batch now d f ps cs (q ∙ ground arith), ground arith)
finish_claims-Owned batch now s t d f ps k j cs (g, err e) q h = absurd (clash (ap (λ r. r.2) h))
  where
    clash :
        {c : WorkerQueueError}
        → ◌≡◌ {A = Result WorkerQueueError BatchClaimOutcome} (err c) (ok (claimed cs j))
        → ⊥
    clash z = cc

claim_candidates-Owned :
    (batch : BatchId) (now : OffsetDateTime) (s t : WorkerSession) (d f : Disk)
    (scan : PendingBatchScan) (j : ℕ) (cs : List ClaimedPackage)
    → claim_candidates batch now s d scan ≡ (t, f, ok (claimed cs j))
    → Owned batch f cs × (t ≡ s)
unfolding claim_candidates
claim_candidates-Owned batch now s t d f scan j cs h = next (prepare_claims d scan.candidates) h
  where
    next :
        (r : Result WorkerQueueError (List (RequestId × Package)))
        → ◌≡◌ {A = Called}
            (elim r [
              | ok prepared ↦ finish_claims s scan.failed_requests (claim_all batch now d prepared)
              | err e ↦ (s, d, err (with_scan_failures e scan.failed_requests))
            ])
            (t, f, ok (claimed cs j))
        → Owned batch f cs × (t ≡ s)
    next (ok prepared) k =
        finish_claims-Owned batch now s t d f prepared scan.failed_requests j cs
          (claim_all batch now d prepared) refl k
    next (err e) k = absurd (clash (ap (λ r. r.2) k))
      where
        clash :
            {c : WorkerQueueError}
            → ◌≡◌ {A = Result WorkerQueueError BatchClaimOutcome} (err c) (ok (claimed cs j))
            → ⊥
        clash z = cc

finish_scan-Owned :
    (batch : BatchId) (now : OffsetDateTime) (s t : WorkerSession) (r : Scanned) (f : Disk) (j : ℕ)
    (cs : List ClaimedPackage) (l : LoopEnd)
    → r.loop_end ≡ l
    → finish_scan batch now s r ≡ (t, f, ok (claimed cs j))
    → Owned batch f cs × (t ≡ reset_scan s)
unfolding finish_scan
finish_scan-Owned batch now s t r f j cs complete q h =
    claim_candidates-Owned batch now (reset_scan s) t r.disk f r.scan j cs (sym (same q) ∙ h)
  where
    same :
        r.loop_end ≡ complete
        → finish_scan batch now s r ≡ claim_candidates batch now (reset_scan s) r.disk r.scan
    same e = rw e refl
finish_scan-Owned batch now s t r f j cs bounded q h =
    absurd (clash (ap (λ x. x.2) (sym (same q) ∙ h)))
  where
    same :
        r.loop_end ≡ bounded
        → finish_scan batch now s r ≡ (
          record s { pending_scan = r.scan },
          r.disk,
          ok (scanning r.count (length r.scan.candidates) r.scan.failed_requests),
        )
    same e = rw e refl

    clash :
        {a b c : ℕ}
        → ◌≡◌ {A = Result WorkerQueueError BatchClaimOutcome}
            (ok (scanning a b c))
            (ok (claimed cs j))
        → ⊥
    clash z = cc
finish_scan-Owned batch now s t r f j cs (stopped cause) q h =
    absurd (clash (ap (λ x. x.2) (sym (same q) ∙ h)))
  where
    same :
        r.loop_end ≡ stopped cause
        → finish_scan batch now s r
          ≡ (reset_scan s, r.disk, err (with_scan_failures cause r.scan.failed_requests))
    same e = rw e refl

    clash :
        {c : WorkerQueueError}
        → ◌≡◌ {A = Result WorkerQueueError BatchClaimOutcome} (err c) (ok (claimed cs j))
        → ⊥
    clash z = cc

-- When a call of `claim_batch` answers claims, every one of them is of this batch and is valid on the disk
-- that the call leaves, and the session is ready for a transaction.
pub claim_batch-validate_claimed :
    (ulid : UlidCrate) (batch : BatchId) (n m : ℕ) (requested : Option ℕ) (now : OffsetDateTime)
    (listing : Option (List DirEntry)) (s t : WorkerSession) (d f : Disk) (cs : List ClaimedPackage)
    (j : ℕ)
    → claim_batch ulid batch n m requested now listing s d ≡ (t, f, ok (claimed cs j))
    → Owned batch f cs × (ensure_no_active_scan t ≡ ok tt)
unfolding claim_batch
claim_batch-validate_claimed ulid batch n m requested now listing s t d f cs j h =
    next
      (check_batch batch n m requested s >> begin_scan batch m requested listing d s.pending_scan)
      refl h
  where
    next :
        (r : Result WorkerQueueError PendingBatchScan)
        → (check_batch batch n m requested s
            >> begin_scan batch m requested listing d s.pending_scan)
          ≡ r
        → ◌≡◌ {A = Called}
            (elim r [
              | err e ↦ (s, d, err e)
              | ok scan ↦ finish_scan batch now s (scan_entries ulid batch m now n d scan)
            ])
            (t, f, ok (claimed cs j))
        → Owned batch f cs × (ensure_no_active_scan t ≡ ok tt)
    next (ok scan) q k =
        let (u, x, y) = >>=-eq-ok (check_batch batch n m requested s) _ q in
        let (owned, same) =
          finish_scan-Owned batch now s t (scan_entries ulid batch m now n d scan) f j cs _ refl
            k in
        (owned, ap (λ w. ensure_no_active_scan w) same ∙ check_batch_ready batch n m requested s x)
    next (err e) q k = absurd (clash (ap (λ r. r.2) k))
      where
        clash : ◌≡◌ {A = Result WorkerQueueError BatchClaimOutcome} (err e) (ok (claimed cs j)) → ⊥
        clash z = cc
