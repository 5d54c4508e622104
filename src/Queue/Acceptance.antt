-- ===== src/Queue/Acceptance.antt =====
-- `IncomingPackage::accept_with_hook_until` of crates/queue/src/file_queue.rs, from the queue lock on: the
-- package is staged and validated. The result lists the writes, in order; where one fails, or the process
-- ends, the disk has those before it.
pub mod Digests
pub mod Idempotence
use agent_knowledge.Prelude.{
  ℕ, ◌+◌, ◌^◌, Bool, true, false, not, Option, none, some, List, [], ◌∷◌, ◌++◌, ◌==◌, nat_eq,
  list_eq, if◌then◌else◌, ltb, Result, ok, err, ◌>>=◌, ◌>>◌, reject, map_err, Text, text, Bytes,
  bytes,
}
use agent_knowledge.Core.Time.{OffsetDateTime}
use agent_knowledge.Core.Id.{RequestId}
use agent_knowledge.Core.Revision.{show}
use agent_knowledge.Queue.Disk.{
  QueueState, pending, PackageDigest, Package, PackageValidationError, invalid, DigestFile, Sidecar,
  Entry, Node, directory, Disk, Effect, enqueue, write_sequence,
}
use agent_knowledge.Queue.Failures.{QueueError}
use agent_knowledge.Queue.Lookup.{find_existing}

pub data EnqueueOutcome : Type 0 where
  accepted : RequestId → PackageDigest → EnqueueOutcome
  existing : RequestId → PackageDigest → QueueState → EnqueueOutcome

-- What `validate_accepted_package` answers for the directory of a request.
abbrev pub files_of : Node → Result PackageValidationError Package
files_of (directory e) = e.package_files
files_of _ = err PackageValidationError.io

-- `format!("{digest}\n")`
abbrev pub digest_contents : PackageDigest → Bytes
digest_contents digest = bytes (show digest) ++ (b'\n' ∷ [])

-- `allocate_sequence`: the number that is taken, which is never zero, and the one that is written.
unfoldable pub allocate_sequence : Disk → Result QueueError (ℕ × ℕ)
allocate_sequence d = do
  reject (not (ltb (d.next_sequence + 1) (2 ^ 64))) QueueError.sequence_exhausted
  ok (d.next_sequence, d.next_sequence + 1)

-- The staged directory with its acceptance metadata.
abbrev pub accepted_entry : Package → ℕ → OffsetDateTime → Option Text → Entry
accepted_entry staged sequence now client = record {
  digest = DigestFile.holds (digest_contents staged.digest);
  package_files = ok (record staged {
    acceptance = some (record { sequence = sequence; accepted_at = now; client_id = client });
  });
  phase = Sidecar.missing;
  result = Sidecar.missing;
}

abbrev pub revalidation : RequestId → QueueState → PackageValidationError → QueueError
revalidation id state PackageValidationError.io = QueueError.io
revalidation id state (invalid code) =
    QueueError.corrupt_state id state (text "accepted package failed immutable revalidation")

unfoldable pub accept_existing : Disk → Package → QueueState → Result QueueError EnqueueOutcome
accept_existing d staged state = do
  let id = staged.request_id
  old ← map_err (revalidation id state) (files_of (d.node state id))
  reject (not (old.request_id == id)) (
      QueueError.corrupt_state id state
        (text "accepted package identity does not match its queue entry"))
  reject (not (old.digest == staged.digest)) (QueueError.request_id_reused id state)
  ok (existing id staged.digest state)

unfoldable pub accept_new :
    Disk → Package → OffsetDateTime → Option Text → Result QueueError (List Effect × EnqueueOutcome)
accept_new d staged now client = do
  numbers ← allocate_sequence d
  ok (
    write_sequence numbers.1
        ∷ (enqueue staged.request_id (accepted_entry staged numbers.0 now client) ∷ []),
    accepted staged.request_id staged.digest,
  )

unfoldable pub accept :
    Package → OffsetDateTime → Option Text → Disk → Result QueueError (List Effect × EnqueueOutcome)
accept staged now client d = do
  found ← find_existing d staged.request_id
  elim found [
    | some (state, stored) ↦ accept_existing d staged state >>= λ outcome. ok ([], outcome)
    | none ↦ accept_new d staged now client
  ]
