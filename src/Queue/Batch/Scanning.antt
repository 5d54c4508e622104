-- ===== src/Queue/Batch/Scanning.antt =====
-- The scan of the pending requests in bounded calls.
use agent_knowledge.Prelude.{
  ℕ, zero, suc, ◌+◌, ◌<◌, ◌≡◌, refl, sym, ◌∙◌, ap, ◌≢◌, List, [], ◌∷◌, none, some, arith, subst,
  >>=-eq-ok, length, Result, ok, err,
}
use agent_knowledge.Core.Time.{OffsetDateTime}
use agent_knowledge.Core.Id.{RequestId, BatchId, UlidCrate}
use agent_knowledge.Queue.Disk.{Disk}
use agent_knowledge.Queue.Failures.{WorkerQueueError, invalid_pending_entry}
use agent_knowledge.Queue.Session.{DirEntry, PendingBatchScan, entries_of, entry_request}
use agent_knowledge.Queue.Batch.{
  Scanned, LoopEnd, stopped, complete, bounded, counted, resume, retain_pending_candidate,
  retain_request, scan_entry, scan_entries,
}

-- A scan that goes on from one that has counted some entries.
abbrev pub add_count : ℕ → Scanned → Scanned
add_count n r = record r { count = n + r.count }

module _ (ulid : UlidCrate) (batch : BatchId) (maximum : ℕ) (now : OffsetDateTime) where
  abbrev Loop : Type 0
  Loop = Disk → PendingBatchScan → Scanned

  -- A scan that goes on where the one before reached its bound.
  abbrev pub continue : Loop → Scanned → LoopEnd → Scanned
  continue rest r bounded = add_count r.count (rest r.disk r.scan)
  continue rest r complete = r
  continue rest r (stopped cause) = r

  resume-continue :
      (f g k : Loop) (d : Disk) (scan : PendingBatchScan)
      (x : Result WorkerQueueError (Disk × PendingBatchScan))
      → ((e : Disk) (s : PendingBatchScan) → g e s ≡ continue k (f e s) (f e s).loop_end)
      → resume ulid batch maximum now g d scan x
        ≡ continue k
            (resume ulid batch maximum now f d scan x)
            (resume ulid batch maximum now f d scan x).loop_end
  resume-continue f g k d scan (err cause) h = refl
  resume-continue f g k d scan (ok (e, s)) h =
      ap counted (h e s) ∙ count_first (f e s) (f e s).loop_end
    where
      count_first :
          (r : Scanned) (l : LoopEnd) → counted (continue k r l) ≡ continue k (counted r) l
      count_first r bounded = ap (λ c. record (k r.disk r.scan) { count = c }) (omega arith)
      count_first r complete = refl
      count_first r (stopped cause) = refl

  scan_entry-continue :
      (f g k : Loop) (d : Disk) (scan : PendingBatchScan) (entries : List DirEntry)
      → ((e : Disk) (s : PendingBatchScan) → g e s ≡ continue k (f e s) (f e s).loop_end)
      → scan_entry ulid batch maximum now g d scan entries
        ≡ continue k
            (scan_entry ulid batch maximum now f d scan entries)
            (scan_entry ulid batch maximum now f d scan entries).loop_end
  scan_entry-continue f g k d scan [] h = refl
  scan_entry-continue f g k d scan (e ∷ entries) h =
      resume-continue f g k d (record scan { entries = some entries })
        (retain_pending_candidate ulid batch maximum now d (record scan { entries = some entries })
          e)
        h

  -- A scan of more entries is a scan of some of them and one of the others.
  pub scan_entries-add :
      (n m : ℕ) (d : Disk) (scan : PendingBatchScan)
      → scan_entries ulid batch maximum now (n + m) d scan
        ≡ continue
            (λ e s. scan_entries ulid batch maximum now m e s)
            (scan_entries ulid batch maximum now n d scan)
            (scan_entries ulid batch maximum now n d scan).loop_end
  unfolding scan_entries
  scan_entries-add zero m d scan =
      ap (λ k. scan_entries ulid batch maximum now k d scan) (omega arith)
      ∙ same_count (scan_entries ulid batch maximum now m d scan)
    where
      same_count : (r : Scanned) → r ≡ add_count 0 r
      same_count r = ap (λ c. record r { count = c }) (omega arith)
  scan_entries-add (suc n) m d scan =
      ap (λ k. scan_entries ulid batch maximum now k d scan) (sum n m)
      ∙ scan_entry-continue (λ e s. scan_entries ulid batch maximum now n e s)
          (λ e s. scan_entries ulid batch maximum now (n + m) e s)
          (λ e s. scan_entries ulid batch maximum now m e s) d scan (entries_of scan)
          (λ e s. scan_entries-add n m e s)
    where
      sum : (a b : ℕ) → suc a + b ≡ suc (a + b)
      sum a b = omega arith

  -- An entry that is read leaves the entries behind it.
  retain_request-entries :
      (d f : Disk) (scan next : PendingBatchScan) (id : RequestId)
      → retain_request batch maximum now d scan id ≡ ok (f, next)
      → next.entries ≡ scan.entries
  unfolding retain_request
  retain_request-entries d f scan next id h = ground arith

  retain_pending_candidate-entries :
      (d f : Disk) (scan next : PendingBatchScan) (e : DirEntry)
      → retain_pending_candidate ulid batch maximum now d scan e ≡ ok (f, next)
      → next.entries ≡ scan.entries
  retain_pending_candidate-entries d f scan next e h =
      let (id, x, k) = >>=-eq-ok (entry_request ulid invalid_pending_entry e) _ h in
      retain_request-entries d f scan next id k

  EndsWithin : ℕ → Loop → Type 0
  EndsWithin m rest =
      (d : Disk) (s : PendingBatchScan) → length (entries_of s) < m → (rest d s).loop_end ≢ bounded

  resume-ends :
      (m : ℕ) (rest : Loop) (d : Disk) (scan : PendingBatchScan)
      (x : Result WorkerQueueError (Disk × PendingBatchScan))
      → EndsWithin m rest
      → ((f : Disk) (next : PendingBatchScan) → x ≡ ok (f, next) → next.entries ≡ scan.entries)
      → length (entries_of scan) < m
      → (resume ulid batch maximum now rest d scan x).loop_end ≢ bounded
  unfolding EndsWithin
  resume-ends m rest d scan (err cause) within same less = λ q. cc
  resume-ends m rest d scan (ok (f, next)) within same less = within f next (
      subst (λ es. length (elim es [ some entries ↦ entries | none ↦ [] ]) < m)
        (sym (same f next refl)) less)

  -- A scan of more entries than there are reaches the end, or an error.
  pub scan_entries_end :
      (m : ℕ) (d : Disk) (scan : PendingBatchScan)
      → length (entries_of scan) < m
      → (scan_entries ulid batch maximum now m d scan).loop_end ≢ bounded
  unfolding scan_entries EndsWithin
  scan_entries_end zero d scan less = absurd (omega arith)
  scan_entries_end (suc m) d scan less =
      turn (λ f next. scan_entries_end m f next) (entries_of scan) less
    where
      turn :
          EndsWithin m (λ f next. scan_entries ulid batch maximum now m f next)
          → (entries : List DirEntry) → length entries < suc m
          → (scan_entry ulid batch maximum now
              (λ f next. scan_entries ulid batch maximum now m f next)
              d
              scan
              entries).loop_end
            ≢ bounded
      turn within [] l = λ q. cc
      turn within (e ∷ entries) l =
          resume-ends m (λ f next. scan_entries ulid batch maximum now m f next) d
            (record scan { entries = some entries })
            (retain_pending_candidate ulid batch maximum now d
              (record scan { entries = some entries }) e)
            within
            (λ f next.
              retain_pending_candidate-entries d f (record scan { entries = some entries }) next e)
            (omega arith)
