-- ===== src/Queue/Session.antt =====
-- The session of the worker, crates/queue/src/file_queue/worker/batch.rs, with the scans that it keeps
-- between calls. A directory that is read is the list of the entries still to come.
use agent_knowledge.Prelude.{
  ℕ, ◌-◌, Bool, true, false, not, Option, none, some, List, [], ◌==◌, nat_eq, list_eq,
  if◌then◌else◌, Result, ok, err, ◌>>=◌, ◌>>◌, reject, map_err, Text, text,
}
use agent_knowledge.Core.Time.{OffsetDateTime}
use agent_knowledge.Core.Id.{RequestId, BatchId, UlidCrate, parse_id}
use agent_knowledge.Queue.Disk.{Disk}
use agent_knowledge.Queue.Failures.{
  WorkerQueueError, processing_scan_in_progress, processing_recovery_required,
  pending_observation_scan_in_progress, batch_scan_in_progress,
}

pub record PendingCandidate : Type 0 where
  pub sequence : ℕ
  pub request_id : RequestId

-- What `ReadDir` yields: an entry that cannot be read; or one whose type cannot; or one that is no directory,
-- or that has no name in UTF-8; or a directory of this name.
pub data DirEntry : Type 0 where
  broken untyped no_directory no_utf8 : DirEntry
  named : Text → DirEntry

pub record PendingBatchScan : Type 0 where
  pub entries : Option (List DirEntry)
  pub candidates : List PendingCandidate
  pub batch_id : Option BatchId
  pub maximum_requests : ℕ
  pub maximum_sequence : ℕ
  pub failed_requests : ℕ

abbrev pub default_scan : PendingBatchScan
default_scan = record {
  entries = none;
  candidates = [];
  batch_id = none;
  maximum_requests = 0;
  maximum_sequence = 0;
  failed_requests = 0;
}

abbrev pub entries_of : PendingBatchScan → List DirEntry
entries_of scan = elim scan.entries [ some entries ↦ entries | none ↦ [] ]

-- `pending_observation`
pub record PendingObservationScan : Type 0 where
  pub entries : Option (List DirEntry)
  pub maximum_sequence : ℕ
  pub requests : ℕ
  pub oldest_accepted_at : Option OffsetDateTime
  pub newest_accepted_at : Option OffsetDateTime
  pub has_invalid_acceptance : Bool

abbrev pub is_some_list : Option (List DirEntry) → Bool
is_some_list none = false
is_some_list (some entries) = true

abbrev pub is_active : PendingObservationScan → Bool
is_active scan = is_some_list scan.entries

pub record WorkerSession : Type 0 where
  pub pending_scan : PendingBatchScan
  pub pending_observation : PendingObservationScan
  pub processing_scan : Option (List DirEntry)
  pub processing_recovery_complete : Bool

unfoldable pub ensure_recovery_complete : WorkerSession → Result WorkerQueueError (Unit {0})
ensure_recovery_complete s =
    if s.processing_recovery_complete
    then ok tt
    else if is_some_list s.processing_scan
    then err processing_scan_in_progress
    else err processing_recovery_required

unfoldable pub ensure_no_active_scan : WorkerSession → Result WorkerQueueError (Unit {0})
ensure_no_active_scan s = do
  ensure_recovery_complete s
  elim s.pending_scan.batch_id [
    | some active ↦ err (batch_scan_in_progress active)
    | none ↦ do
      reject (is_active s.pending_observation) pending_observation_scan_in_progress
      reject (is_some_list s.processing_scan) processing_scan_in_progress
  ]

abbrev pub require_processing_recovery : WorkerSession → WorkerSession
require_processing_recovery s = record s {
  processing_recovery_complete = false;
  processing_scan = none;
}

-- `current_maximum_sequence`
abbrev pub current_maximum_sequence : Disk → ℕ
current_maximum_sequence d = d.next_sequence - 1

module _ (ulid : UlidCrate) where
  -- The name of an entry, which is the canonical text of a request identifier.
  unfoldable pub entry_request :
      (Text → WorkerQueueError) → DirEntry → Result WorkerQueueError RequestId
  entry_request invalid broken = err WorkerQueueError.io
  entry_request invalid untyped = err WorkerQueueError.io
  entry_request invalid no_directory = err (invalid (text "entry is not a directory"))
  entry_request invalid no_utf8 = err (invalid (text "entry name is not UTF-8"))
  entry_request invalid (named name) = do
    id ←
        map_err (λ _. invalid (text "entry name is not a canonical request ID"))
          (parse_id ulid name)
    reject (not (ulid.to_string id == name))
        (invalid (text "entry name is not a canonical request ID"))
    ok id
