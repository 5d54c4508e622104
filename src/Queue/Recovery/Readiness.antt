-- ===== src/Queue/Recovery/Readiness.antt =====
-- When the worker may go on after the recovery.
use agent_knowledge.Prelude.{
  ℕ, zero, suc, ◌<◌, ◌≡◌, refl, ◌∙◌, ap, subst, ◌&&◌, true, false, Option, none, some, List, [],
  ◌∷◌, arith, length, Result, ok, err, ◌>>=◌, >>=-eq-ok, ok-injective, nat_eq,
}
use agent_knowledge.Core.Id.{UlidCrate}
use agent_knowledge.Queue.Disk.{Disk}
use agent_knowledge.Queue.Failures.{WorkerQueueError, processing_scan_in_progress}
use agent_knowledge.Queue.Claims.{ClaimedPackage}
use agent_knowledge.Queue.Session.{
  DirEntry, WorkerSession, is_active, is_some_list, ensure_recovery_complete, ensure_no_active_scan,
}
use agent_knowledge.Queue.Recovery.{
  ProcessingScanOutcome, scanning, complete, RecoveryEnd, stopped, paused, finished,
  recover_processing_claim, recover_entries, check_processing, Scan, finish_recovery,
  run_processing, scan_processing,
}

-- What a session answers before a transaction, after a scan with this outcome.
abbrev pub readiness_after : ProcessingScanOutcome → Result WorkerQueueError (Unit {0})
readiness_after (complete n cs) = ok tt
readiness_after (scanning n cs) = err processing_scan_in_progress

-- No scan of the pending requests is active.
abbrev IsQuiet : WorkerSession → Type 0
IsQuiet s = (s.pending_scan.batch_id ≡ none) × (is_active s.pending_observation ≡ false)

check_processing-IsQuiet : (n : ℕ) (s : WorkerSession) → check_processing n s ≡ ok tt → IsQuiet s
unfolding check_processing
check_processing-IsQuiet n s h = ground arith

finish_recovery_ready :
    (s t : WorkerSession) (end : RecoveryEnd) (o : ProcessingScanOutcome)
    → IsQuiet s
    → s.processing_recovery_complete ≡ false
    → finish_recovery s end ≡ (t, ok o)
    → ensure_no_active_scan t ≡ readiness_after o
unfolding ensure_no_active_scan ensure_recovery_complete
finish_recovery_ready s t (stopped e) o quiet incomplete h = ground arith
finish_recovery_ready s t (finished n cs) o quiet incomplete h = ground arith
finish_recovery_ready s t (paused n cs rest) o quiet incomplete h = ground arith

-- While the processing directory is scanned, the recovery is not complete.
abbrev pub IsSession : WorkerSession → Type 0
IsSession s = (is_some_list s.processing_scan && s.processing_recovery_complete) ≡ false

finish_recovery-IsSession :
    (s : WorkerSession) (end : RecoveryEnd)
    → s.processing_recovery_complete ≡ false
    → IsSession (finish_recovery s end).0
finish_recovery-IsSession s (stopped e) incomplete = refl
finish_recovery-IsSession s (finished n cs) incomplete = refl
finish_recovery-IsSession s (paused n cs rest) incomplete = incomplete

run_processing_ready :
    (ulid : UlidCrate) (n : ℕ) (listing : Option (List DirEntry)) (s t : WorkerSession) (d : Disk)
    (scan : Option (List DirEntry)) (o : ProcessingScanOutcome)
    → IsQuiet s
    → (is_some_list scan && s.processing_recovery_complete) ≡ false
    → run_processing ulid n listing s d scan ≡ (t, ok o)
    → (ensure_no_active_scan t ≡ readiness_after o) × IsSession t
unfolding run_processing
run_processing_ready ulid n listing s t d (some entries) o quiet valid h = (
  finish_recovery_ready s t (recover_entries ulid n d entries) o quiet valid h,
  subst IsSession (ap (λ q. q.0) h)
      (finish_recovery-IsSession s (recover_entries ulid n d entries) valid),
)
run_processing_ready ulid n none s t d none o quiet valid h = absurd (clash h)
  where
    clash :
        ◌≡◌ {A = Scan}
          (record s { processing_recovery_complete = false }, err WorkerQueueError.io)
          (t, ok o)
        → ⊥
    clash q = cc
run_processing_ready ulid n (some entries) s t d none o quiet valid h = (
  finish_recovery_ready (begun entries) t (recover_entries ulid n d entries) o quiet refl h,
  subst IsSession (ap (λ q. q.0) h)
      (finish_recovery-IsSession (begun entries) (recover_entries ulid n d entries) refl),
)
  where
    begun : List DirEntry → WorkerSession
    begun es = record s { processing_recovery_complete = false; processing_scan = some es }

-- In a session whose recovery is not complete while the processing directory is scanned, after a call
-- of the recovery scan that succeeds, the session is ready for a transaction exactly if the scan is
-- complete, and otherwise answers that the processing directory is scanned; and the session is again
-- such a one.
pub scan_processing_ready :
    (ulid : UlidCrate) (n : ℕ) (listing : Option (List DirEntry)) (s t : WorkerSession) (d : Disk)
    (o : ProcessingScanOutcome)
    → IsSession s
    → scan_processing ulid n listing s d ≡ (t, ok o)
    → (ensure_no_active_scan t ≡ readiness_after o) × IsSession t
unfolding scan_processing
scan_processing_ready ulid n listing s t d o valid h = checked (check_processing n s) refl h
  where
    checked :
        (r : Result WorkerQueueError (Unit {0}))
        → check_processing n s ≡ r
        → ◌≡◌ {A = Scan}
            (elim r [
              | err e ↦ (s, err e)
              | ok u ↦ run_processing ulid n listing s d s.processing_scan
            ])
            (t, ok o)
        → (ensure_no_active_scan t ≡ readiness_after o) × IsSession t
    checked (err e) q k = absurd (clash k)
      where
        clash : ◌≡◌ {A = Scan} (s, err e) (t, ok o) → ⊥
        clash z = cc
    checked (ok u) q k =
        run_processing_ready ulid n listing s t d s.processing_scan o
          (check_processing-IsQuiet n s q) valid k

-- The claims of all the entries, where none of them is corrupt.
unfoldable pub claims_of :
    UlidCrate → Disk → List DirEntry → Result WorkerQueueError (List ClaimedPackage)
claims_of ulid d [] = ok []
claims_of ulid d (e ∷ entries) = do
  c ← recover_processing_claim ulid d e
  rest ← claims_of ulid d entries
  ok (c ∷ rest)

recover_entries-claims_of :
    (ulid : UlidCrate) (n : ℕ) (d : Disk) (entries : List DirEntry) (cs : List ClaimedPackage)
    → length entries < n
    → claims_of ulid d entries ≡ ok cs
    → recover_entries ulid n d entries ≡ finished (length entries) cs
unfolding recover_entries claims_of
recover_entries-claims_of ulid zero d entries cs less h = absurd (omega arith)
recover_entries-claims_of ulid (suc n) d [] cs less h = ap (λ k. finished 0 k) (ok-injective h)
recover_entries-claims_of ulid (suc n) d (e ∷ entries) cs less h =
    let (c, x, h1) = >>=-eq-ok (recover_processing_claim ulid d e) _ h in
    let (rest, y, h2) = >>=-eq-ok (claims_of ulid d entries) _ h1 in
    let q = recover_entries-claims_of ulid n d entries rest (omega arith) y in
    ground (arith, x, q, h2)

check_processing-allows :
    (n : ℕ) (s : WorkerSession)
    → 0 < n
    → s.pending_scan.batch_id ≡ none
    → is_active s.pending_observation ≡ false
    → check_processing n s ≡ ok tt
unfolding check_processing
check_processing-allows n s positive free quiet = ground arith

abbrev recovered : WorkerSession → WorkerSession
recovered s = record s { processing_scan = none; processing_recovery_complete = true }

recovered_ready :
    (s : WorkerSession)
    → s.pending_scan.batch_id ≡ none
    → is_active s.pending_observation ≡ false
    → ensure_no_active_scan (recovered s) ≡ ok tt
unfolding ensure_no_active_scan ensure_recovery_complete
recovered_ready s free quiet = ground arith

scan_processing-claims_of :
    (ulid : UlidCrate) (n : ℕ) (entries : List DirEntry) (s : WorkerSession) (d : Disk)
    (cs : List ClaimedPackage)
    → check_processing n s ≡ ok tt
    → s.processing_scan ≡ none
    → length entries < n
    → claims_of ulid d entries ≡ ok cs
    → scan_processing ulid n (some entries) s d ≡ (recovered s, ok (complete (length entries) cs))
unfolding scan_processing run_processing
scan_processing-claims_of ulid n entries s d cs allowed idle less h =
    let q = recover_entries-claims_of ulid n d entries cs less h in ground (arith, allowed, idle, q)

-- A call of the recovery scan with a limit above the number of entries, in a session without an active scan,
-- answers the claims of all of them, if none of them is corrupt, and the session is then ready for a
-- transaction.
pub scan_processing_recovers :
    (ulid : UlidCrate) (n : ℕ) (entries : List DirEntry) (s : WorkerSession) (d : Disk)
    (cs : List ClaimedPackage)
    → s.pending_scan.batch_id ≡ none
    → is_active s.pending_observation ≡ false
    → s.processing_scan ≡ none
    → length entries < n
    → claims_of ulid d entries ≡ ok cs
    → ((scan_processing ulid n (some entries) s d).1 ≡ ok (complete (length entries) cs))
      × (ensure_no_active_scan (scan_processing ulid n (some entries) s d).0 ≡ ok tt)
scan_processing_recovers ulid n entries s d cs free quiet idle less h =
    let q =
      scan_processing-claims_of ulid n entries s d cs
        (check_processing-allows n s (omega arith) free quiet) idle less h in
    (ap (λ r. r.1) q, ap (λ r. ensure_no_active_scan r.0) q ∙ recovered_ready s free quiet)
