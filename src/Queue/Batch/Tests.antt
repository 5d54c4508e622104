-- ===== src/Queue/Batch/Tests.antt =====
-- A scan of a pending directory with one request, whose identifiers are printed as one letter.
use mathlib.Core.List.{Permᴰ}
use agent_knowledge.Prelude.{
  ℕ, ◌*◌, ◌≡◌, refl, ◌≢◌, none, some, List, [], ◌∷◌, ok, arith, take, list_beq,
}
use agent_knowledge.Core.Id.{parse_id}
use agent_knowledge.Core.Document.Tests.{noon}
use agent_knowledge.Queue.Disk.{apply, commit}
use agent_knowledge.Queue.Claims.{next_attempt, read_phase, revalidate_accepted}
use agent_knowledge.Queue.Session.{
  PendingCandidate, DirEntry, named, PendingBatchScan, default_scan, entry_request,
  ensure_recovery_complete,
}
use agent_knowledge.Queue.Batch.{
  inspect_pending_candidate, check_sequence, scan_entries, retain_request, retain, push,
}
use agent_knowledge.Queue.Batch.Calls.{scanning, check_batch, begin_scan, finish_scan, claim_batch}
use agent_knowledge.Queue.Batch.Rounds.{answer, claim_calls}
use agent_knowledge.Queue.Batch.Termination.{claim_calls_end}
use agent_knowledge.Queue.Batch.Selection.{retained, IsOrdered, retained_first}
use agent_knowledge.Queue.Sample.{accepted_disk, letters, idle_session}

abbrev listing : List DirEntry
listing = named (7 ∷ []) ∷ []

abbrev begun : PendingBatchScan
begun = record default_scan {
  entries = some listing;
  batch_id = some 20;
  maximum_requests = 4;
  maximum_sequence = 1;
}

abbrev candidate : ℕ → ℕ → PendingCandidate
candidate sequence id = record { sequence = sequence; request_id = id }

abbrev found : List PendingCandidate
found = candidate 1 7 ∷ []

claim_calls_end_example :
    (claim_calls letters 20 1 4 none noon (some listing) 1 idle_session accepted_disk
      ≡ claim_batch letters 20 (2 * 1) 4 none noon (some listing) idle_session accepted_disk)
    × ((a b e : ℕ)
        → answer (claim_calls letters 20 1 4 none noon (some listing) 1 idle_session accepted_disk)
          ≢ ok (scanning a b e))
claim_calls_end_example =
    claim_calls_end letters 20 1 4 none noon (some listing) 1 idle_session accepted_disk
      (omega arith)

-- The first of these calls does answer `Scanning`.
first_call :
    answer (claim_batch letters 20 1 4 none noon (some listing) idle_session accepted_disk)
    ≡ ok (scanning 1 1 0)
unfolding claim_batch check_batch begin_scan ensure_recovery_complete finish_scan scan_entries
    retain_request retain push entry_request parse_id inspect_pending_candidate check_sequence
    next_attempt revalidate_accepted read_phase list_beq commit apply
first_call = refl

-- Two requests, found in the other order.
abbrev two : List PendingCandidate
two = candidate 2 5 ∷ (candidate 1 7 ∷ [])

abbrev two_turned : List PendingCandidate
two_turned = candidate 1 7 ∷ (candidate 2 5 ∷ [])

retained_first_example :
    (retained 1 [] two ≡ retained 1 [] two_turned)
    × (os : List PendingCandidate) × (retained 1 [] two ≡ take 1 os)
    × IsOrdered os
    × Permᴰ os two
retained_first_example = retained_first 1 two two_turned (Permᴰ.swap refl refl)
