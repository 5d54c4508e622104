-- ===== src/Queue/Claims.antt =====
-- The claims of crates/queue/src/file_queue/worker.rs and the recovery of one of them in
-- crates/queue/src/file_queue/worker/recovery.rs. The result lists the writes, in order; where one fails,
-- or the process ends, the disk has those before it. The identity checks and the synchronisation of
-- directories between them change nothing. Attempts are 32-bit words.
pub mod Ownership
pub mod Tokens
use agent_knowledge.Prelude.{
  ℕ, ◌+◌, ◌^◌, Bool, true, not, ◌||◌, Option, none, some, List, [], ◌∷◌, ◌==◌, nat_eq, list_eq, ltb,
  Result, ok, err, ◌>>=◌, ◌>>◌, reject, ok_or, map_err, Text, text,
}
use agent_knowledge.Core.Time.{OffsetDateTime}
use agent_knowledge.Core.Id.{RequestId, BatchId}
use agent_knowledge.Queue.Disk.{
  QueueState, pending, processing, state_eq, PackageDigest, Package, PackageValidationError,
  invalid, WorkerPhase, claimed, WorkerPhaseRecord, Sidecar, missing, failing, irregular,
  unreadable, oversized, malformed, holds, Node, absent, directory, Disk, Effect, write_phase,
  rename,
}
use agent_knowledge.Queue.Failures.{
  WorkerQueueError, queue, invalid_phase_metadata, request_not_found, attempt_exhausted,
  claim_changed, invalid_state, corrupt_package, corrupt_state,
}
use agent_knowledge.Queue.Lookup.{find_existing}
use agent_knowledge.Queue.Acceptance.{files_of}

abbrev pub Planned : Type 0 → Type 0
Planned A = Result WorkerQueueError (List Effect × A)

pub record ClaimToken : Type 0 where
  pub request_id : RequestId
  pub batch_id : BatchId
  pub attempt : ℕ

-- `package_root` is the state directory of the path; its last component is the request.
pub record ClaimedPackage : Type 0 where
  pub token : ClaimToken
  pub contents : Package
  pub package_root : QueueState

abbrev pub phase_schema_version : ℕ
phase_schema_version = 1

abbrev pub is_claimed : WorkerPhase → Bool
is_claimed claimed = true

-- The sidecar files below the path of a request.
abbrev pub phase_at : Node → Sidecar WorkerPhaseRecord
phase_at (directory e) = e.phase
phase_at absent = missing
phase_at _ = failing

unfoldable pub revalidate_accepted : Node → RequestId → QueueState → Result WorkerQueueError Package
revalidate_accepted node id state = elim (files_of node) [
  | ok p ↦ ok p
  | err e ↦ elim e [
    | PackageValidationError.io ↦ err WorkerQueueError.io
    | invalid code ↦ err (corrupt_package id state (invalid code))
  ]
]

unfoldable pub check_phase_record :
    WorkerPhaseRecord → RequestId → QueueState → Result WorkerQueueError WorkerPhaseRecord
check_phase_record r id state = do
  reject (not (r.schema_version == phase_schema_version))
      (corrupt_state id state (text "phase metadata has an unsupported schema version"))
  reject (not (r.request_id == id))
      (corrupt_state id state (text "phase metadata names a different request"))
  ok r

-- `read_optional_phase_record`, with `read_phase_record`
unfoldable pub read_phase :
    Sidecar WorkerPhaseRecord
    → RequestId
    → QueueState
    → Result WorkerQueueError (Option WorkerPhaseRecord)
read_phase missing id state = ok none
read_phase failing id state = err WorkerQueueError.io
read_phase irregular id state =
    err (corrupt_state id state (text "phase metadata is not a regular file"))
read_phase unreadable id state = err WorkerQueueError.io
read_phase oversized id state =
    err (corrupt_state id state (text "phase metadata exceeds its byte limit"))
read_phase malformed id state = err invalid_phase_metadata
read_phase (holds r) id state = check_phase_record r id state >>= λ r. ok (some r)

unfoldable pub read_required_phase :
    Sidecar WorkerPhaseRecord → RequestId → QueueState → Result WorkerQueueError WorkerPhaseRecord
read_required_phase file id state = do
  found ← read_phase file id state
  ok_or found (corrupt_state id state (text "processing package is missing phase metadata"))

abbrev pub attempt_of : Option WorkerPhaseRecord → ℕ
attempt_of none = 0
attempt_of (some r) = r.attempt

unfoldable pub next_attempt :
    Sidecar WorkerPhaseRecord → RequestId → QueueState → Result WorkerQueueError ℕ
next_attempt file id state = do
  previous ← read_phase file id state
  reject (not (ltb (attempt_of previous + 1) (2 ^ 32))) (attempt_exhausted id)
  ok (attempt_of previous + 1)

-- The check of the destination before a sidecar file is replaced.
unfoldable pub check_destination :
    {R : Type 0} → Sidecar R → RequestId → Text → Result WorkerQueueError (Unit {0})
check_destination missing id detail = ok tt
check_destination failing id detail = err WorkerQueueError.io
check_destination irregular id detail = err (corrupt_state id pending detail)
check_destination _ id detail = ok tt

unfoldable pub ensure_pending : Disk → RequestId → Result WorkerQueueError PackageDigest
ensure_pending d id = do
  found ← map_err queue (find_existing d id)
  entry ← ok_or found (request_not_found id)
  reject (not (entry.0 == pending)) (invalid_state id pending entry.0)
  ok entry.1

unfoldable pub prepare_claim : Disk → RequestId → Result WorkerQueueError Package
prepare_claim d id = do
  contents ← revalidate_accepted (d.node pending id) id pending
  reject (not (contents.request_id == id))
      (corrupt_state id pending (text "accepted package identity does not match its queue entry"))
  next_attempt (phase_at (d.node pending id)) id pending
  ok contents

abbrev pub claim_record : RequestId → BatchId → ℕ → OffsetDateTime → WorkerPhaseRecord
claim_record id batch attempt now = record {
  schema_version = phase_schema_version;
  request_id = id;
  batch_id = batch;
  attempt = attempt;
  phase = claimed;
  updated_at = now;
}

unfoldable pub claim_prepared :
    RequestId → BatchId → Package → OffsetDateTime → Disk → Planned ClaimedPackage
claim_prepared id batch prepared now d = do
  stored ← ensure_pending d id
  reject (not (stored == prepared.digest))
      (corrupt_state id pending (text "accepted package changed after Worker validation"))
  attempt ← next_attempt (phase_at (d.node pending id)) id pending
  check_destination (phase_at (d.node pending id)) id (text "phase metadata is not a regular file")
  ok (
    write_phase pending id (claim_record id batch attempt now)
        ∷ (rename pending processing id ∷ []),
    record {
      token = record { request_id = id; batch_id = batch; attempt = attempt };
      contents = prepared;
      package_root = processing;
    },
  )

-- `claim`. After an error of the preparation the state is looked up again, which answers the same error
-- where no other process has moved the request.
unfoldable pub claim : RequestId → BatchId → OffsetDateTime → Disk → Planned ClaimedPackage
claim id batch now d = do
  ensure_pending d id
  prepared ← prepare_claim d id
  claim_prepared id batch prepared now d

abbrev pub is_owned : WorkerPhaseRecord → ClaimToken → Bool
is_owned r token = not (
    not (r.batch_id == token.batch_id)
    || (not (r.attempt == token.attempt) || not (is_claimed r.phase)))

unfoldable pub requeue_claimed : ClaimToken → Disk → Planned (Unit {0})
requeue_claimed token d = do
  let id = token.request_id
  found ← map_err queue (find_existing d id)
  entry ← ok_or found (request_not_found id)
  reject (not (entry.0 == processing)) (invalid_state id processing entry.0)
  r ← read_required_phase (phase_at (d.node processing id)) id processing
  reject (not (is_owned r token)) (claim_changed id)
  ok (rename processing pending id ∷ [], tt)

unfoldable pub validate_claimed : ClaimedPackage → Disk → Result WorkerQueueError (Unit {0})
validate_claimed claim d = do
  let id = claim.token.request_id
  reject (not (claim.package_root == processing)) (claim_changed id)
  found ← map_err queue (find_existing d id)
  entry ← ok_or found (request_not_found id)
  reject (not (entry.0 == processing)) (invalid_state id processing entry.0)
  r ← read_required_phase (phase_at (d.node processing id)) id processing
  reject (not (is_owned r claim.token) || not (entry.1 == claim.contents.digest)) (claim_changed id)

-- `recover_processing_claim`, of an entry whose name is a request identifier.
unfoldable pub recover_claim : Disk → RequestId → Result WorkerQueueError ClaimedPackage
recover_claim d id = do
  contents ← revalidate_accepted (d.node processing id) id processing
  reject (not (contents.request_id == id)) (
      corrupt_state id processing (text "accepted package identity does not match its queue entry"))
  r ← read_required_phase (phase_at (d.node processing id)) id processing
  reject (not (is_claimed r.phase))
      (corrupt_state id processing (text "processing package has an unsupported recovery phase"))
  ok (record {
    token = record { request_id = id; batch_id = r.batch_id; attempt = r.attempt };
    contents = contents;
    package_root = processing;
  })
