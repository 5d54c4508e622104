-- ===== src/Queue/Recovery.antt =====
-- The scan of the claims that an interrupted worker has left: `scan_processing` of
-- crates/queue/src/file_queue/worker/recovery.rs. What the directory yields, when it is opened, is an
-- argument.
pub mod Readiness
use agent_knowledge.Prelude.{
  ℕ, zero, suc, ◌+◌, Bool, true, false, Option, none, some, List, [], ◌∷◌, ◌==◌, nat_eq, Result, ok,
  err, ◌>>=◌, ◌>>◌, reject, ok_or,
}
use agent_knowledge.Core.Id.{UlidCrate}
use agent_knowledge.Queue.Disk.{Disk}
use agent_knowledge.Queue.Failures.{
  WorkerQueueError, invalid_processing_entry, invalid_processing_scan_limit, batch_scan_in_progress,
  pending_observation_scan_in_progress,
}
use agent_knowledge.Queue.Claims.{ClaimedPackage, recover_claim}
use agent_knowledge.Queue.Session.{DirEntry, WorkerSession, is_active, entry_request}

pub data ProcessingScanOutcome : Type 0 where
  scanning complete : ℕ → List ClaimedPackage → ProcessingScanOutcome

-- How the loop over the entries ends: at an error, or with the entries that it counted, the claims, and
-- the entries that are left, if the end was not reached.
pub data RecoveryEnd : Type 0 where
  stopped : WorkerQueueError → RecoveryEnd
  paused : ℕ → List ClaimedPackage → List DirEntry → RecoveryEnd
  finished : ℕ → List ClaimedPackage → RecoveryEnd

abbrev pub with_claim : ClaimedPackage → RecoveryEnd → RecoveryEnd
with_claim c (stopped e) = stopped e
with_claim c (paused n cs rest) = paused (n + 1) (c ∷ cs) rest
with_claim c (finished n cs) = finished (n + 1) (c ∷ cs)

module _ (ulid : UlidCrate) where
  unfoldable pub recover_processing_claim : Disk → DirEntry → Result WorkerQueueError ClaimedPackage
  recover_processing_claim d entry =
      entry_request ulid invalid_processing_entry entry >>= λ id. recover_claim d id

  -- The loop of `scan_processing`, which reads at most this many entries.
  unfoldable pub recover_entries : ℕ → Disk → List DirEntry → RecoveryEnd
  recover_entries zero d entries = paused 0 [] entries
  recover_entries (suc n) d [] = finished 0 []
  recover_entries (suc n) d (e ∷ entries) = elim (recover_processing_claim d e) [
    | ok c ↦ with_claim c (recover_entries n d entries)
    | err cause ↦ stopped cause
  ]

-- The checks at the beginning.
unfoldable pub check_processing : ℕ → WorkerSession → Result WorkerQueueError (Unit {0})
check_processing maximum_entries s = do
  reject (maximum_entries == 0) invalid_processing_scan_limit
  elim s.pending_scan.batch_id [
    | some active ↦ err (batch_scan_in_progress active)
    | none ↦ reject (is_active s.pending_observation) pending_observation_scan_in_progress
  ]

abbrev pub Scan : Type 0
Scan = WorkerSession × Result WorkerQueueError ProcessingScanOutcome

-- The end of a call, after the loop.
abbrev pub finish_recovery : WorkerSession → RecoveryEnd → Scan
finish_recovery s (stopped e) =
    (record s { processing_scan = none; processing_recovery_complete = false }, err e)
finish_recovery s (finished n cs) =
    (record s { processing_scan = none; processing_recovery_complete = true }, ok (complete n cs))
finish_recovery s (paused n cs rest) =
    (record s { processing_scan = some rest }, ok (scanning n cs))

-- A call that begins a scan, with the entries of the directory, and one that goes on with one.
unfoldable pub run_processing :
    UlidCrate → ℕ → Option (List DirEntry) → WorkerSession → Disk → Option (List DirEntry) → Scan
run_processing ulid maximum_entries listing s d (some entries) =
    finish_recovery s (recover_entries ulid maximum_entries d entries)
run_processing ulid maximum_entries none s d none =
    (record s { processing_recovery_complete = false }, err WorkerQueueError.io)
run_processing ulid maximum_entries (some entries) s d none =
    finish_recovery
      (record s { processing_recovery_complete = false; processing_scan = some entries })
      (recover_entries ulid maximum_entries d entries)

unfoldable pub scan_processing :
    UlidCrate → ℕ → Option (List DirEntry) → WorkerSession → Disk → Scan
scan_processing ulid maximum_entries listing s d = elim (check_processing maximum_entries s) [
  | err e ↦ (s, err e)
  | ok u ↦ run_processing ulid maximum_entries listing s d s.processing_scan
]
