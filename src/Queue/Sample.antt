-- ===== src/Queue/Sample.antt =====
-- A queue with one request, on which the operations run.
use agent_knowledge.Prelude.{none, some, false, true, Result, ok, err, Text, List, [], ◌∷◌, ◌++◌}
use agent_knowledge.Core.Document.Tests.{noon}
use agent_knowledge.Core.Revision.{Revision}
use agent_knowledge.Core.ErrorCode.{invalid_request}
use agent_knowledge.Core.Id.{Ulid, DecodeError, invalid_length, UlidCrate}
use agent_knowledge.Queue.Session.{default_scan, WorkerSession}
use agent_knowledge.Queue.Disk.{
  pending, processing, WorkerPhaseRecord, WorkerResultRecord, Package, Sidecar, Entry, absent, Disk,
  Effect, write_phase, rename, enqueue, write_sequence, commit,
}
use agent_knowledge.Queue.Acceptance.{accepted_entry}
use agent_knowledge.Queue.Claims.{ClaimToken, ClaimedPackage, claim_record}
use agent_knowledge.Queue.Results.{result_record}

abbrev pub eight : Revision
eight = 0x01 ∷ 0x23 ∷ 0x45 ∷ 0x67 ∷ 0x89 ∷ 0xab ∷ 0xcd ∷ 0xef ∷ []

abbrev pub digest : Revision
digest = eight ++ (eight ++ (eight ++ eight))

abbrev pub staged : Package
staged = record { request_id = 7; digest = digest; acceptance = none }

abbrev pub empty_disk : Disk
empty_disk = record { node = λ s id. absent; next_sequence = 1 }

abbrev pub acceptance : List Effect
acceptance = write_sequence 2 ∷ (enqueue 7 (accepted_entry staged 1 noon none) ∷ [])

abbrev pub accepted_disk : Disk
accepted_disk = commit acceptance empty_disk

abbrev pub accepted_seven : Entry
accepted_seven = accepted_entry staged 1 noon none

abbrev pub first_record : WorkerPhaseRecord
first_record = claim_record 7 20 1 noon

abbrev pub claimed_seven : Entry
claimed_seven = record accepted_seven { phase = Sidecar.holds first_record }

abbrev pub claiming : List Effect
claiming = write_phase pending 7 first_record ∷ (rename pending processing 7 ∷ [])

abbrev pub claimed_disk : Disk
claimed_disk = commit claiming accepted_disk

abbrev pub accepted_package : Package
accepted_package = record staged {
  acceptance = some (record { sequence = 1; accepted_at = noon; client_id = none });
}

abbrev pub token : ClaimToken
token = record { request_id = 7; batch_id = 20; attempt = 1 }

abbrev pub claimed_package : ClaimedPackage
claimed_package = record { token = token; contents = accepted_package; package_root = processing }

abbrev pub requeued_disk : Disk
requeued_disk = commit (rename processing pending 7 ∷ []) claimed_disk

abbrev pub reclaiming : List Effect
reclaiming = write_phase pending 7 (claim_record 7 21 2 noon) ∷ (rename pending processing 7 ∷ [])

abbrev pub reclaimed_disk : Disk
reclaimed_disk = commit reclaiming requeued_disk

abbrev pub reclaimed_package : ClaimedPackage
reclaimed_package = record {
  token = record { request_id = 7; batch_id = 21; attempt = 2 };
  contents = accepted_package;
  package_root = processing;
}

abbrev pub failure : WorkerResultRecord
failure = result_record 7 20 invalid_request noon

-- Identifiers that are printed as one letter.
abbrev pub first_char : Text → Result DecodeError Ulid
first_char [] = err invalid_length
first_char (c ∷ v) = ok c

abbrev pub letters : UlidCrate
letters = record { from_str = first_char; to_string = λ id. id ∷ [] }

abbrev pub idle_session : WorkerSession
idle_session = record {
  pending_scan = default_scan;
  pending_observation = record {
    entries = none;
    maximum_sequence = 0;
    requests = 0;
    oldest_accepted_at = none;
    newest_accepted_at = none;
    has_invalid_acceptance = false;
  };
  processing_scan = none;
  processing_recovery_complete = true;
}
