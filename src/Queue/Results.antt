-- ===== src/Queue/Results.antt =====
-- The terminal transitions of crates/queue/src/file_queue/worker/result.rs. The result lists the writes, in
-- order; where one fails, or the process ends, the disk has those before it.
pub mod Recovery
pub mod Resumption
pub mod Arrival
use agent_knowledge.Prelude.{
  ℕ, Bool, true, not, ◌||◌, Option, none, some, List, [], ◌∷◌, ◌++◌, ◌==◌, nat_eq, if◌then◌else◌,
  Result, ok, err, ◌>>=◌, ◌>>◌, reject, ok_or, text,
}
use agent_knowledge.Core.Time.{OffsetDateTime}
use agent_knowledge.Core.Id.{RequestId, BatchId}
use agent_knowledge.Core.ErrorCode.{ErrorCode, code_eq}
use agent_knowledge.Queue.Disk.{
  QueueState, pending, processing, completed, state_eq, WorkerResultStatus, WorkerResultRecord,
  Sidecar, missing, failing, irregular, unreadable, oversized, malformed, holds, Node, absent,
  directory, Disk, Effect, write_result, rename,
}
use agent_knowledge.Queue.Failures.{
  WorkerQueueError, invalid_result_metadata, request_not_found, claim_changed, invalid_state,
  corrupt_state,
}
use agent_knowledge.Queue.Lookup.{find_existing_state}
use agent_knowledge.Queue.Claims.{
  Planned, ClaimToken, phase_at, read_required_phase, is_owned, check_destination,
}

abbrev pub result_schema_version : ℕ
result_schema_version = 1

abbrev pub is_failed : WorkerResultStatus → Bool
is_failed WorkerResultStatus.failed = true

abbrev pub result_at : Node → Sidecar WorkerResultRecord
result_at (directory e) = e.result
result_at absent = missing
result_at _ = failing

unfoldable pub validate_claim_token :
    Node → ClaimToken → QueueState → Result WorkerQueueError (Unit {0})
validate_claim_token node token state = do
  r ← read_required_phase (phase_at node) token.request_id state
  reject (not (is_owned r token)) (claim_changed token.request_id)

unfoldable pub ensure_result_absent :
    Sidecar WorkerResultRecord → RequestId → QueueState → Result WorkerQueueError (Unit {0})
ensure_result_absent missing id state = ok tt
ensure_result_absent failing id state = err WorkerQueueError.io
ensure_result_absent _ id state =
    err (corrupt_state id state (text "successful request contains failure result metadata"))

abbrev pub matches_result : WorkerResultRecord → ClaimToken → ErrorCode → Bool
matches_result r token code = not (
    not (r.schema_version == result_schema_version)
    || (not (r.request_id == token.request_id)
        || (not (r.batch_id == token.batch_id)
            || (not (is_failed r.status) || not (r.error_code == code)))))

unfoldable pub validate_result_record :
    Sidecar WorkerResultRecord
    → ClaimToken
    → ErrorCode
    → QueueState
    → Result WorkerQueueError (Unit {0})
validate_result_record missing token code state = err WorkerQueueError.io
validate_result_record failing token code state = err WorkerQueueError.io
validate_result_record irregular token code state =
    err
      (corrupt_state token.request_id state (text "result metadata is not a bounded regular file"))
validate_result_record unreadable token code state = err WorkerQueueError.io
validate_result_record oversized token code state =
    err
      (corrupt_state token.request_id state (text "result metadata is not a bounded regular file"))
validate_result_record malformed token code state = err invalid_result_metadata
validate_result_record (holds r) token code state = reject (not (matches_result r token code)) (
    corrupt_state token.request_id state
      (text "result metadata does not match the terminal outcome"))

abbrev pub result_record : RequestId → BatchId → ErrorCode → OffsetDateTime → WorkerResultRecord
result_record id batch code now = record {
  schema_version = result_schema_version;
  request_id = id;
  batch_id = batch;
  status = WorkerResultStatus.failed;
  error_code = code;
  failed_at = now;
}

-- `ensure_result_record`: the write that is needed.
unfoldable pub ensure_result_record :
    Sidecar WorkerResultRecord
    → ClaimToken
    → ErrorCode
    → QueueState
    → OffsetDateTime
    → Result WorkerQueueError (List Effect)
ensure_result_record missing token code state now = ok (
    write_result state token.request_id (result_record token.request_id token.batch_id code now)
    ∷ [])
ensure_result_record failing token code state now = err WorkerQueueError.io
ensure_result_record file token code state now = do
  validate_result_record file token code state
  ok []

unfoldable pub validate_terminal_claim :
    Disk → ClaimToken → QueueState → Option ErrorCode → Result WorkerQueueError (Unit {0})
validate_terminal_claim d token state code = do
  validate_claim_token (d.node state token.request_id) token state
  elim code [
    | some c ↦ validate_result_record (result_at (d.node state token.request_id)) token c state
    | none ↦ ensure_result_absent (result_at (d.node state token.request_id)) token.request_id state
  ]

unfoldable pub result_effects :
    Disk → ClaimToken → Option ErrorCode → OffsetDateTime → Result WorkerQueueError (List Effect)
result_effects d token code now = elim code [
  | some c ↦
      ensure_result_record (result_at (d.node processing token.request_id)) token c processing now
  | none ↦ do
    ensure_result_absent (result_at (d.node processing token.request_id)) token.request_id
        processing
    ok []
]

-- The transition of a request that is not yet terminal.
unfoldable pub finish_claimed :
    ClaimToken
    → QueueState
    → Option ErrorCode
    → OffsetDateTime
    → QueueState
    → Disk
    → Planned (Unit {0})
finish_claimed token terminal code now state d = do
  reject (not (state == processing)) (invalid_state token.request_id processing state)
  validate_claim_token (d.node processing token.request_id) token processing
  es ← result_effects d token code now
  ok (es ++ (rename processing terminal token.request_id ∷ []), tt)

unfoldable pub transition_claimed :
    ClaimToken → QueueState → Option ErrorCode → OffsetDateTime → Disk → Planned (Unit {0})
transition_claimed token terminal code now d = do
  found ← find_existing_state d token.request_id
  state ← ok_or found (request_not_found token.request_id)
  (if state == terminal
      then (validate_terminal_claim d token state code >> ok ([], tt))
      else finish_claimed token terminal code now state d)

abbrev pub complete_claimed : ClaimToken → OffsetDateTime → Disk → Planned (Unit {0})
complete_claimed token now = transition_claimed token completed none now

abbrev pub fail_claimed : ClaimToken → ErrorCode → OffsetDateTime → Disk → Planned (Unit {0})
fail_claimed token code now = transition_claimed token QueueState.failed (some code) now

unfoldable pub fail_pending :
    RequestId → BatchId → ErrorCode → OffsetDateTime → Disk → Planned (Unit {0})
fail_pending id batch code now d = do
  found ← find_existing_state d id
  state ← ok_or found (request_not_found id)
  reject (not (state == pending)) (invalid_state id pending state)
  check_destination (result_at (d.node pending id)) id
      (text "result metadata is not a regular file")
  ok (
    write_result pending id (result_record id batch code now)
        ∷ (rename pending QueueState.failed id ∷ []),
    tt,
  )
