-- ===== src/Queue/Failures.antt =====
-- The errors of crates/queue/src/file_queue.rs and crates/queue/src/file_queue/worker.rs that the
-- modelled operations answer, and their error codes. The causes of failures of the file system and of
-- serde_json are left out.
use agent_knowledge.Prelude.{ℕ, Text}
use agent_knowledge.Core.Id.{RequestId, BatchId}
use agent_knowledge.Core.ErrorCode.{
  ErrorCode, content_validation_failed, internal_error, temporary_failure, invalid_request,
}
use agent_knowledge.Queue.Disk.{QueueState, PackageValidationError, invalid}

pub data QueueError : Type 0 where
  io sequence_exhausted invalid_sequence_state : QueueError
  package_invalid : PackageValidationError → QueueError
  request_id_reused : RequestId → QueueState → QueueError
  request_in_multiple_states : RequestId → QueueError
  corrupt_state : RequestId → QueueState → Text → QueueError

abbrev pub package_code : PackageValidationError → ErrorCode
package_code PackageValidationError.io = temporary_failure
package_code (invalid code) = code

abbrev pub queue_code : QueueError → ErrorCode
queue_code QueueError.io = temporary_failure
queue_code sequence_exhausted = internal_error
queue_code invalid_sequence_state = internal_error
queue_code (package_invalid e) = package_code e
queue_code (QueueError.request_id_reused id s) = ErrorCode.request_id_reused
queue_code (request_in_multiple_states id) = internal_error
queue_code (corrupt_state id s detail) = content_validation_failed

pub data WorkerQueueError : Type 0 where
  io invalid_phase_metadata invalid_result_metadata invalid_reconciliation : WorkerQueueError
  invalid_batch_limits invalid_batch_snapshot processing_recovery_required : WorkerQueueError
  pending_observation_scan_in_progress processing_scan_in_progress : WorkerQueueError
  invalid_processing_scan_limit : WorkerQueueError
  queue : QueueError → WorkerQueueError
  batch_scan_changed batch_scan_in_progress : BatchId → WorkerQueueError
  batch_scan_failed : ℕ → WorkerQueueError → WorkerQueueError
  invalid_pending_entry invalid_processing_entry : Text → WorkerQueueError
  request_not_found attempt_exhausted claim_changed : RequestId → WorkerQueueError
  invalid_state : RequestId → QueueState → QueueState → WorkerQueueError
  corrupt_package : RequestId → QueueState → PackageValidationError → WorkerQueueError
  corrupt_state : RequestId → QueueState → Text → WorkerQueueError

-- `error_code`
unfoldable pub worker_code : WorkerQueueError → ErrorCode
worker_code (batch_scan_failed n source) = worker_code source
worker_code (queue e) = queue_code e
worker_code WorkerQueueError.io = temporary_failure
worker_code (request_not_found id) = invalid_request
worker_code (invalid_state id expected actual) = invalid_request
worker_code (claim_changed id) = invalid_request
worker_code invalid_batch_limits = invalid_request
worker_code (batch_scan_changed id) = invalid_request
worker_code (batch_scan_in_progress id) = invalid_request
worker_code pending_observation_scan_in_progress = invalid_request
worker_code invalid_batch_snapshot = invalid_request
worker_code processing_scan_in_progress = invalid_request
worker_code processing_recovery_required = invalid_request
worker_code invalid_processing_scan_limit = invalid_request
worker_code invalid_reconciliation = invalid_request
worker_code (corrupt_package id s source) = content_validation_failed
worker_code (WorkerQueueError.corrupt_state id s detail) = content_validation_failed
worker_code (invalid_pending_entry detail) = content_validation_failed
worker_code (invalid_processing_entry detail) = content_validation_failed
worker_code invalid_phase_metadata = content_validation_failed
worker_code invalid_result_metadata = content_validation_failed
worker_code (attempt_exhausted id) = internal_error
