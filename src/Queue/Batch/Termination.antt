-- ===== src/Queue/Batch/Termination.antt =====
-- Calls of `claim_batch` for one batch, crates/queue/src/file_queue/worker/batch.rs, each of which goes on
-- with the scan that the one before has kept.
use agent_knowledge.Prelude.{
  ℕ, zero, suc, ◌*◌, ◌<◌, ◌≡◌, refl, sym, ◌∙◌, ap, ◌≢◌, Option, List, arith, subst, Result, ok, err,
  ◌>>◌, >>=-eq-ok,
}
use agent_knowledge.Core.Time.{OffsetDateTime}
use agent_knowledge.Core.Id.{BatchId, UlidCrate}
use agent_knowledge.Queue.Disk.{Disk}
use agent_knowledge.Queue.Failures.{WorkerQueueError}
use agent_knowledge.Queue.Session.{DirEntry, PendingBatchScan, WorkerSession}
use agent_knowledge.Queue.Batch.{Scanned, LoopEnd, stopped, complete, bounded, scan_entries}
use agent_knowledge.Queue.Batch.Scanning.{continue, scan_entries-add, scan_entries_end}
use agent_knowledge.Queue.Batch.Continuation.{scan_entries-Continues}
use agent_knowledge.Queue.Batch.Calls.{
  scanning, Called, check_batch, begin_scan, finish_scan, claim_batch,
}
use agent_knowledge.Queue.Batch.Rounds.{
  claim_calls, left, begin_scan-left, begin_scan-open, claim_batch-begun, claim_batch-refused,
  answer, again, IsFinal, again-IsFinal, set_scan, finish_scan-IsFinal, again-bounded,
  finish_scan-set_scan, check_batch-positive, check_batch-again,
}

module _ (ulid : UlidCrate) (batch : BatchId) (n maximum : ℕ) (requested : Option ℕ)
    (now : OffsetDateTime) (listing : Option (List DirEntry)) where
  -- One more call goes on with the scan that the call before it has kept.
  pub claim_calls-scan :
      (calls : ℕ) (s : WorkerSession) (d : Disk) (scan : PendingBatchScan)
      → check_batch batch n maximum requested s ≡ ok tt
      → begin_scan batch maximum requested listing d s.pending_scan ≡ ok scan
      → (scan_entries ulid batch maximum now (suc calls * n) d scan).loop_end ≢ bounded
      → claim_calls ulid batch n maximum requested now listing calls s d
        ≡ finish_scan batch now s (scan_entries ulid batch maximum now (suc calls * n) d scan)
  unfolding claim_calls
  claim_calls-scan zero s d scan h k b =
      claim_batch-begun ulid batch n maximum requested now listing n s d scan h k
      ∙ ap (λ m. finish_scan batch now s (scan_entries ulid batch maximum now m d scan))
          (omega arith)
  claim_calls-scan (suc calls) s d scan h k b =
      ap (again rest) (claim_batch-begun ulid batch n maximum requested now listing n s d scan h k)
      ∙ (turn (λ f next c q e. claim_calls-scan calls (set_scan s next) f next c q e) r.loop_end
            refl
          ∙ ap (finish_scan batch now s) (sym split))
    where
      rest : WorkerSession → Disk → Called
      rest t f = claim_calls ulid batch n maximum requested now listing calls t f

      r : Scanned
      r = scan_entries ulid batch maximum now n d scan

      tail : Disk → PendingBatchScan → Scanned
      tail f next = scan_entries ulid batch maximum now (suc calls * n) f next

      split :
          scan_entries ulid batch maximum now (suc (suc calls) * n) d scan
          ≡ continue ulid batch maximum now tail r r.loop_end
      split =
          ap (λ m. scan_entries ulid batch maximum now m d scan) (omega arith)
          ∙ scan_entries-add ulid batch maximum now n (suc calls * n) d scan

      last :
          (l : LoopEnd)
          → r.loop_end ≡ l
          → continue ulid batch maximum now tail r l ≡ r
          → l ≢ bounded
          → again rest (finish_scan batch now s r)
            ≡ finish_scan batch now s (continue ulid batch maximum now tail r r.loop_end)
      last l e same n =
          again-IsFinal rest _ (finish_scan-IsFinal batch now s r (λ q. n (sym e ∙ q)))
          ∙ ap (finish_scan batch now s)
              (sym (ap (continue ulid batch maximum now tail r) e ∙ same))

      turn :
          ((f : Disk) (next : PendingBatchScan)
            → check_batch batch n maximum requested (set_scan s next) ≡ ok tt
            → begin_scan batch maximum requested listing f next ≡ ok next
            → (tail f next).loop_end ≢ bounded
            → rest (set_scan s next) f ≡ finish_scan batch now (set_scan s next) (tail f next))
          → (l : LoopEnd) → r.loop_end ≡ l
          → again rest (finish_scan batch now s r)
            ≡ finish_scan batch now s (continue ulid batch maximum now tail r r.loop_end)
      turn ih bounded e =
          let c =
            scan_entries-Continues ulid batch maximum now n d scan
              (begin_scan-left batch maximum requested listing d s scan k).1 in
          let ends =
            subst (λ t. t.loop_end ≢ bounded)
              (split ∙ ap (continue ulid batch maximum now tail r) e) b in
          again-bounded batch now rest s r e
          ∙ (ih r.disk r.scan
                (check_batch-again batch n maximum requested listing d s scan r.scan h k
                  c.same_batch c.same_maximum c.same_sequence)
                (begin_scan-open batch maximum requested listing r.disk r.scan c.stays_open) ends
              ∙ (finish_scan-set_scan batch now s r.scan (tail r.disk r.scan) r.count ends
                  ∙ ap (λ l. finish_scan batch now s (continue ulid batch maximum now tail r l))
                      (sym e)))
      turn ih complete e = last complete e refl (λ q. cc)
      turn ih (stopped cause) e = last (stopped cause) e refl (λ q. cc)

  claim_calls-refused :
      (calls : ℕ) (s : WorkerSession) (d : Disk) (e : WorkerQueueError)
      → (check_batch batch n maximum requested s
          >> begin_scan batch maximum requested listing d s.pending_scan)
        ≡ err e
      → claim_calls ulid batch n maximum requested now listing calls s d ≡ (s, d, err e)
  unfolding claim_calls
  claim_calls-refused zero s d e h =
      claim_batch-refused ulid batch n maximum requested now listing n s d e h
  claim_calls-refused (suc calls) s d e h =
      ap (again λ t f. claim_calls ulid batch n maximum requested now listing calls t f)
        (claim_batch-refused ulid batch n maximum requested now listing n s d e h)

  -- Calls for one batch with no other operation between them, which together allow more entries than
  -- there are, come to an answer that is not `Scanning`, whatever the entries are, and to the session,
  -- disk and answer of one call with that many entries.
  pub claim_calls_end :
      (calls : ℕ) (s : WorkerSession) (d : Disk)
      → left listing s < suc calls * n
      → (claim_calls ulid batch n maximum requested now listing calls s d
          ≡ claim_batch ulid batch (suc calls * n) maximum requested now listing s d)
        × ((a b e : ℕ)
            → answer (claim_calls ulid batch n maximum requested now listing calls s d)
              ≢ ok (scanning a b e))
  claim_calls_end calls s d less = outcome (check_batch batch n maximum requested s >> begun) refl
    where
      total : ℕ
      total = suc calls * n

      begun : Result WorkerQueueError PendingBatchScan
      begun = begin_scan batch maximum requested listing d s.pending_scan

      same_check :
          check_batch batch total maximum requested s ≡ check_batch batch n maximum requested s
      same_check =
          check_batch-positive batch total n maximum requested s (λ e. omega arith)
            (λ e. ground arith)

      outcome :
          (x : Result WorkerQueueError PendingBatchScan)
          → (check_batch batch n maximum requested s >> begun) ≡ x
          → (claim_calls ulid batch n maximum requested now listing calls s d
              ≡ claim_batch ulid batch total maximum requested now listing s d)
            × IsFinal (claim_calls ulid batch n maximum requested now listing calls s d)
      outcome (err e) h =
          let refused = claim_calls-refused calls s d e h in
          (
            refused
                ∙ sym (
                    claim_batch-refused ulid batch n maximum requested now listing total s d e
                      (ap (λ c. c >> begun) same_check ∙ h)),
            subst IsFinal (sym refused) λ a b c q. cc,
          )
      outcome (ok scan) h =
          let (u, checks, begins) = >>=-eq-ok (check_batch batch n maximum requested s) _ h in
          let ends = scan_entries_end ulid batch maximum now total d scan (
            subst (λ m. m < total)
              (sym (begin_scan-left batch maximum requested listing d s scan begins).0) less) in
          let q = claim_calls-scan calls s d scan checks begins ends in
          (
            q
                ∙ sym (
                    claim_batch-begun ulid batch n maximum requested now listing total s d scan
                      (same_check ∙ checks) begins),
            subst IsFinal (sym q) (finish_scan-IsFinal batch now s _ ends),
          )
