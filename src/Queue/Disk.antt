-- ===== src/Queue/Disk.antt =====
-- What crates/queue/src/file_queue.rs keeps below its root: one directory for each state, with one
-- directory for each request, and the file `next-sequence`. A file is what the file system and the decoder
-- answer for it. The writes that survive a crash, each of them atomic, are the data type `Effect`: the
-- renames of files and directories. `next-sequence` holds a number above zero; that it cannot be read is left
-- out. Locks are held around each operation, so that none runs inside another.
use agent_knowledge.Prelude.{
  ℕ, ◌≡◌, ◌↔◌, true, ◌&&◌, Option, List, [], ◌∷◌, arith, ◌==◌, PartialEq, nat_eq, if◌then◌else◌,
  Result, Text, Bytes,
}
use agent_knowledge.Core.Time.{OffsetDateTime}
use agent_knowledge.Core.Id.{RequestId, BatchId}
use agent_knowledge.Core.Revision.{Revision}
use agent_knowledge.Core.ErrorCode.{ErrorCode}

pub data QueueState : Type 0 where
  pending processing completed failed : QueueState

-- `index`
abbrev pub index : QueueState → ℕ
index pending = 0
index processing = 1
index completed = 2
index failed = 3

pub state_iff : (a b : QueueState) → ((index a == index b) ≡ true) ↔ (a ≡ b)
state_iff a b = ground arith

instance abbrev pub state_eq : PartialEq QueueState
state_eq = record { eq = λ a b. index a == index b; eq_iff = state_iff }

abbrev pub all_states : List QueueState
all_states = pending ∷ (processing ∷ (completed ∷ (failed ∷ [])))

pub data WorkerPhase : Type 0 where
  claimed : WorkerPhase

pub record WorkerPhaseRecord : Type 0 where
  pub schema_version : ℕ
  pub request_id : RequestId
  pub batch_id : BatchId
  pub attempt : ℕ
  pub phase : WorkerPhase
  pub updated_at : OffsetDateTime

pub data WorkerResultStatus : Type 0 where
  failed : WorkerResultStatus

pub record WorkerResultRecord : Type 0 where
  pub schema_version : ℕ
  pub request_id : RequestId
  pub batch_id : BatchId
  pub status : WorkerResultStatus
  pub error_code : ErrorCode
  pub failed_at : OffsetDateTime

abbrev pub PackageDigest : Type 0
PackageDigest = Revision

-- `client_id` is the text of the identifier.
pub record AcceptanceMetadata : Type 0 where
  pub sequence : ℕ
  pub accepted_at : OffsetDateTime
  pub client_id : Option Text

-- What the queue reads of a package that `validate_accepted_package` of crates/queue/src/package.rs
-- accepts.
pub record Package : Type 0 where
  pub request_id : RequestId
  pub digest : PackageDigest
  pub acceptance : Option AcceptanceMetadata

-- Its errors: one of the file system, and the others by their error codes.
pub data PackageValidationError : Type 0 where
  io : PackageValidationError
  invalid : ErrorCode → PackageValidationError

-- A file beside the package: `missing`; `failing` if `symlink_metadata` fails otherwise; `irregular` if
-- it is no regular file; `unreadable`, `oversized` and `malformed` if reading, the limit or the decoder
-- fails.
pub data Sidecar (R : Type 0) : Type 0 where
  missing failing irregular unreadable oversized malformed : Sidecar R
  holds : R → Sidecar R

-- The file `digest`, with its whole contents.
pub data DigestFile : Type 0 where
  missing failing irregular unreadable : DigestFile
  holds : Bytes → DigestFile

-- The directory of one request. Its package is what the validation of the immutable files answers.
pub record Entry : Type 0 where
  pub digest : DigestFile
  pub package_files : Result PackageValidationError Package
  pub phase : Sidecar WorkerPhaseRecord
  pub result : Sidecar WorkerResultRecord

-- An entry of a state directory: none; one that `symlink_metadata` fails on; one that is no directory.
pub data Node : Type 0 where
  absent unreachable not_directory : Node
  directory : Entry → Node

pub record Disk : Type 0 where
  pub node : QueueState → RequestId → Node
  pub next_sequence : ℕ

-- The writes. `enqueue` renames the staging directory of a package to its place in `pending`.
pub data Effect : Type 0 where
  write_phase : QueueState → RequestId → WorkerPhaseRecord → Effect
  write_result : QueueState → RequestId → WorkerResultRecord → Effect
  rename : QueueState → QueueState → RequestId → Effect
  enqueue : RequestId → Entry → Effect
  write_sequence : ℕ → Effect

abbrev pub put : QueueState → RequestId → Node → Disk → Disk
put s id n d = record d { node = λ t k. if (t == s) && (k == id) then n else d.node t k }

abbrev pub change : (Entry → Entry) → Node → Node
change f (directory e) = directory (f e)
change f n = n

unfoldable pub apply : Effect → Disk → Disk
apply (write_phase s id r) d =
    put s id (change (λ e. record e { phase = Sidecar.holds r }) (d.node s id)) d
apply (write_result s id r) d =
    put s id (change (λ e. record e { result = Sidecar.holds r }) (d.node s id)) d
apply (rename s t id) d = put s id absent (put t id (d.node s id) d)
apply (enqueue id e) d = put pending id (directory e) d
apply (write_sequence n) d = record d { next_sequence = n }

-- The disk after some writes: all those of an operation, or those before a crash.
unfoldable pub commit : List Effect → Disk → Disk
unfolding apply
commit [] d = d
commit (e ∷ es) d = commit es (apply e d)
