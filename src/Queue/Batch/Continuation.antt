-- ===== src/Queue/Batch/Continuation.antt =====
-- What a bounded scan of the pending requests leaves for the call that goes on with it,
-- crates/queue/src/file_queue/worker/batch.rs.
use agent_knowledge.Prelude.{
  ℕ, zero, suc, true, ◌≡◌, refl, ◌∙◌, List, [], ◌∷◌, some, arith, >>=-eq-ok, Result, ok, err,
}
use agent_knowledge.Core.Time.{OffsetDateTime}
use agent_knowledge.Core.Id.{RequestId, BatchId, UlidCrate}
use agent_knowledge.Queue.Disk.{Disk}
use agent_knowledge.Queue.Failures.{WorkerQueueError, invalid_pending_entry}
use agent_knowledge.Queue.Session.{
  DirEntry, PendingBatchScan, entries_of, is_some_list, entry_request,
}
use agent_knowledge.Queue.Batch.{
  resume, retain_pending_candidate, retain_request, scan_entry, scan_entries,
}

module _ (ulid : UlidCrate) (batch : BatchId) (maximum : ℕ) (now : OffsetDateTime) where
  -- A scan keeps its batch, its limits and its directory, which stays open.
  pub record Continues (scan next : PendingBatchScan) : Type 0 where
    pub same_batch : next.batch_id ≡ scan.batch_id
    pub same_maximum : next.maximum_requests ≡ scan.maximum_requests
    pub same_sequence : next.maximum_sequence ≡ scan.maximum_sequence
    pub stays_open : is_some_list next.entries ≡ true

  retain_request-Continues :
      (d f : Disk) (scan next : PendingBatchScan) (id : RequestId)
      → is_some_list scan.entries ≡ true
      → retain_request batch maximum now d scan id ≡ ok (f, next)
      → Continues scan next
  unfolding retain_request
  retain_request-Continues d f scan next id o h = record {
    same_batch = ground arith;
    same_maximum = ground arith;
    same_sequence = ground arith;
    stays_open = ground arith;
  }

  Continues-trans : (a b c : PendingBatchScan) → Continues a b → Continues b c → Continues a c
  Continues-trans a b c f g = record {
    same_batch = g.same_batch ∙ f.same_batch;
    same_maximum = g.same_maximum ∙ f.same_maximum;
    same_sequence = g.same_sequence ∙ f.same_sequence;
    stays_open = g.stays_open;
  }

  pub scan_entries-Continues :
      (m : ℕ) (d : Disk) (scan : PendingBatchScan)
      → is_some_list scan.entries ≡ true
      → Continues scan (scan_entries ulid batch maximum now m d scan).scan
  unfolding scan_entries
  scan_entries-Continues zero d scan o = record {
    same_batch = refl;
    same_maximum = refl;
    same_sequence = refl;
    stays_open = o;
  }
  scan_entries-Continues (suc m) d scan o =
      turn (λ f next. scan_entries-Continues m f next) (entries_of scan)
    where
      later :
          ((f : Disk) (next : PendingBatchScan)
            → is_some_list next.entries ≡ true
            → Continues next (scan_entries ulid batch maximum now m f next).scan)
          → (entries : List DirEntry) (x : Result WorkerQueueError (Disk × PendingBatchScan))
          → ((f : Disk) (next : PendingBatchScan)
              → x ≡ ok (f, next)
              → Continues (record scan { entries = some entries }) next)
          → Continues scan
              (resume ulid batch maximum now
                (λ f next. scan_entries ulid batch maximum now m f next)
                d
                (record scan { entries = some entries })
                x).scan
      later h entries (err cause) k = record {
        same_batch = refl;
        same_maximum = refl;
        same_sequence = refl;
        stays_open = refl;
      }
      later h entries (ok (f, next)) k =
          let c = k f next refl in
          Continues-trans scan next _
            (record {
              same_batch = c.same_batch;
              same_maximum = c.same_maximum;
              same_sequence = c.same_sequence;
              stays_open = c.stays_open;
            })
            (h f next c.stays_open)

      turn :
          ((f : Disk) (next : PendingBatchScan)
            → is_some_list next.entries ≡ true
            → Continues next (scan_entries ulid batch maximum now m f next).scan)
          → (entries : List DirEntry)
          → Continues scan
              (scan_entry ulid batch maximum now
                (λ f next. scan_entries ulid batch maximum now m f next)
                d
                scan
                entries).scan
      turn h [] = record {
        same_batch = refl;
        same_maximum = refl;
        same_sequence = refl;
        stays_open = o;
      }
      turn h (e ∷ entries) =
          let read = record scan { entries = some entries } in
          later h entries (retain_pending_candidate ulid batch maximum now d read e) λ f next q.
            let (id, x, k) = >>=-eq-ok (entry_request ulid invalid_pending_entry e) _ q in
            retain_request-Continues d f read next id refl k
