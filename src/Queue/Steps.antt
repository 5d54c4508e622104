-- ===== src/Queue/Steps.antt =====
-- The steps that the writes of crates/queue/src/file_queue.rs and crates/queue/src/file_queue/worker take
-- are meant to be: which write is permitted on which disk. The operations are compared with it in the
-- modules below.
pub mod Moves
pub mod Progress
pub mod Validity
pub mod Invariant
pub mod Operations
pub mod Outcomes
pub mod Histories
use agent_knowledge.Prelude.{
  ℕ, ◌+◌, ◌^◌, ◌<◌, ◌≡◌, ◌≢◌, Option, none, some, List, [], ◌∷◌, Result, ok, err,
}
use agent_knowledge.Core.Id.{RequestId}
use agent_knowledge.Queue.Disk.{
  QueueState, pending, processing, completed, AcceptanceMetadata, Package, PackageValidationError,
  WorkerPhaseRecord, WorkerResultRecord, Sidecar, missing, holds, Entry, directory, Disk, Effect,
  write_phase, write_result, rename, enqueue, write_sequence, apply,
}
use agent_knowledge.Queue.Lookup.Placement.{IsAt, IsAbsent}

-- The attempt of the phase file, zero without one.
abbrev pub attempts : Entry → ℕ
attempts e = elim e.phase [ holds r ↦ r.attempt | _ ↦ 0 ]

abbrev acceptance_sequence : Option AcceptanceMetadata → Option ℕ
acceptance_sequence none = none
acceptance_sequence (some a) = some a.sequence

abbrev files_sequence : Result PackageValidationError Package → Option ℕ
files_sequence (ok p) = acceptance_sequence p.acceptance
files_sequence (err e) = none

-- The number that the package was accepted under.
abbrev pub sequence_of : Entry → Option ℕ
sequence_of e = files_sequence e.package_files

-- No request stands anywhere under this number.
abbrev pub IsUnused : Disk → ℕ → Type 0
IsUnused d n =
    (s : QueueState) (id : RequestId) (e : Entry)
    → d.node s id ≡ directory e
    → sequence_of e ≢ some n

pub data Permitted (d : Disk) : Effect → Type 0 where
  number : d.next_sequence + 1 < 2 ^ 64 → Permitted d (write_sequence (d.next_sequence + 1))
  accept :
      {id : RequestId} {e : Entry} {n : ℕ}
      → IsAbsent d id
      → e.result ≡ missing
      → sequence_of e ≡ some n
      → n < d.next_sequence
      → IsUnused d n
      → Permitted d (enqueue id e)
  prepare :
      {id : RequestId} {e : Entry} {r : WorkerPhaseRecord}
      → IsAt d id pending e
      → attempts e < r.attempt
      → Permitted d (write_phase pending id r)
  start :
      {id : RequestId} {e : Entry} {r : WorkerPhaseRecord}
      → IsAt d id pending e
      → e.phase ≡ holds r
      → Permitted d (rename pending processing id)
  requeue :
      {id : RequestId} {e : Entry}
      → IsAt d id processing e
      → Permitted d (rename processing pending id)
  report :
      {id : RequestId} {s : QueueState} {e : Entry} {r : WorkerResultRecord}
      → IsAt d id s e
      → s ≢ completed
      → s ≢ QueueState.failed
      → Permitted d (write_result s id r)
  complete :
      {id : RequestId} {e : Entry}
      → IsAt d id processing e
      → e.result ≡ missing
      → Permitted d (rename processing completed id)
  fail :
      {id : RequestId} {s : QueueState} {e : Entry} {r : WorkerResultRecord}
      → IsAt d id s e
      → s ≢ completed
      → s ≢ QueueState.failed
      → e.result ≡ holds r
      → Permitted d (rename s QueueState.failed id)

-- Each write of a sequence of them is permitted where it is done.
pub data Run : Disk → List Effect → Type 0 where
  done : {d : Disk} → Run d []
  next :
      {d : Disk} {x : Effect} {xs : List Effect}
      → Permitted d x
      → Run (apply x d) xs
      → Run d (x ∷ xs)
