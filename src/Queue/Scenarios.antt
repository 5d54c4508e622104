-- ===== src/Queue/Scenarios.antt =====
-- One request that is claimed, found again by the recovery, and reconciled.
use mathlib.Core.List.{Permᴰ}
use agent_knowledge.Prelude.{
  ◌≡◌, refl, true, none, some, ok, List, [], ◌∷◌, All, arith, bytes, is_utf8, strip_prefix,
  list_beq,
}
use agent_knowledge.Core.Revision.{show, parse}
use agent_knowledge.Core.Markdown.{strip_last}
use agent_knowledge.Core.Id.{BatchId, parse_id}
use agent_knowledge.Core.Document.Tests.{noon}
use agent_knowledge.Queue.Disk.{processing, completed, Disk, rename, apply, commit}
use agent_knowledge.Queue.Lookup.{
  find_existing_state, find_existing, read_stored_digest, parse_digest,
}
use agent_knowledge.Queue.Acceptance.{accepted}
use agent_knowledge.Queue.Claims.{
  recover_claim, claim_prepared, prepare_claim, ensure_pending, next_attempt, check_destination,
  revalidate_accepted, read_required_phase, read_phase, check_phase_record,
}
use agent_knowledge.Queue.Results.{
  transition_claimed, finish_claimed, validate_claim_token, result_effects, ensure_result_absent,
}
use agent_knowledge.Queue.Session.{
  DirEntry, named, entry_request, ensure_no_active_scan, ensure_recovery_complete,
}
use agent_knowledge.Queue.Steps.Validity.{IsValid}
use agent_knowledge.Queue.Steps.Histories.{accepts, claims, here, ends, Reach-IsValid}
use agent_knowledge.Queue.Batch.{
  scan_entries, retain_request, retain, push, inspect_pending_candidate, check_sequence,
}
use agent_knowledge.Queue.Batch.Calls.{
  claimed, check_batch, begin_scan, finish_scan, claim_candidates, claim_all, claim_batch,
}
use agent_knowledge.Queue.Batch.Outcome.{Owned, claim_batch-validate_claimed}
use agent_knowledge.Queue.Reconciliation.{
  BatchReconciliation, expected_outcomes, validates, transition_all, is_reconcilable, are_distinct,
  reconcile_batch, sort_outcomes, insert_outcome,
}
use agent_knowledge.Queue.Reconciliation.Placement.{IsReconciled, reconcile_batch_sound}
use agent_knowledge.Queue.Reconciliation.Proof.{reconcile_batch-validates}
use agent_knowledge.Queue.Recovery.{
  complete, recover_processing_claim, recover_entries, check_processing, run_processing,
  scan_processing,
}
use agent_knowledge.Queue.Recovery.Readiness.{
  IsSession, claims_of, scan_processing_ready, scan_processing_recovers,
}
use agent_knowledge.Queue.Sample.{
  staged, digest, empty_disk, acceptance, accepted_disk, claiming, claimed_disk, claimed_package,
  token, letters, idle_session,
}
use agent_knowledge.Queue.Tests.{empty-IsValid, accepts_seven, claims_seven}

abbrev listing : List DirEntry
listing = named (7 ∷ []) ∷ []

finds_claim : claims_of letters claimed_disk listing ≡ ok (claimed_package ∷ [])
unfolding claims_of recover_processing_claim entry_request parse_id list_beq recover_claim
    revalidate_accepted read_required_phase read_phase check_phase_record commit apply
finds_claim = refl

scan_processing_recovers_example :
    ((scan_processing letters 5 (some listing) idle_session claimed_disk).1
      ≡ ok (complete 1 (claimed_package ∷ [])))
    × (ensure_no_active_scan (scan_processing letters 5 (some listing) idle_session claimed_disk).0
        ≡ ok tt)
scan_processing_recovers_example =
    scan_processing_recovers letters 5 listing idle_session claimed_disk (claimed_package ∷ []) refl
      refl refl (omega arith) finds_claim

scans :
    scan_processing letters 5 (some []) idle_session claimed_disk
    ≡ (idle_session, ok (complete 0 []))
unfolding scan_processing check_processing run_processing recover_entries
scans = refl

scan_processing_ready_example :
    (ensure_no_active_scan idle_session ≡ ok tt) × IsSession idle_session
scan_processing_ready_example =
    scan_processing_ready letters 5 (some []) idle_session idle_session claimed_disk (complete 0 [])
      refl scans

claimed-IsValid : IsValid claimed_disk
claimed-IsValid = Reach-IsValid empty_disk claimed_disk empty-IsValid (
    ends claiming []
      (ends acceptance [] here (accepts staged noon none (accepted 7 digest) accepts_seven))
      (claims 7 20 noon claimed_package claims_seven))

abbrev completed_disk : Disk
completed_disk = commit (rename processing completed 7 ∷ []) claimed_disk

abbrev proved : BatchReconciliation
proved = record {
  queue_identity = digest;
  batch_id = 20;
  outcomes = sort_outcomes (expected_outcomes (token ∷ []) []);
}

reconciles :
    reconcile_batch digest 20 (token ∷ []) [] noon idle_session claimed_disk
    ≡ (completed_disk, ok proved)
unfolding reconcile_batch is_reconcilable are_distinct ensure_no_active_scan
    ensure_recovery_complete transition_all transition_claimed finish_claimed validate_claim_token
    read_required_phase read_phase check_phase_record result_effects ensure_result_absent
    find_existing_state commit apply
reconciles = refl

reconcile_batch_sound_example :
    IsValid completed_disk × All (IsReconciled completed_disk) (expected_outcomes (token ∷ []) [])
reconcile_batch_sound_example =
    reconcile_batch_sound digest 20 (token ∷ []) [] noon idle_session claimed_disk completed_disk
      proved claimed-IsValid reconciles

validated : validates proved digest 20 (token ∷ []) [] ≡ true
unfolding validates list_beq sort_outcomes insert_outcome
validated = refl

reconcile_batch-validates_example :
    (validates proved digest 20 (token ∷ []) [] ≡ true)
    × (digest ≡ digest)
    × (◌≡◌ {A = BatchId} 20 20)
    × Permᴰ (expected_outcomes (token ∷ []) []) (expected_outcomes (token ∷ []) [])
reconcile_batch-validates_example =
    reconcile_batch-validates digest digest 20 20 (token ∷ []) (token ∷ []) [] [] noon idle_session
      claimed_disk completed_disk proved reconciles validated

claims_batch :
    claim_batch letters 20 5 4 none noon (some listing) idle_session accepted_disk
    ≡ (idle_session, claimed_disk, ok (claimed (claimed_package ∷ []) 0))
unfolding claim_batch check_batch begin_scan ensure_recovery_complete finish_scan scan_entries
    retain_request retain push entry_request parse_id inspect_pending_candidate check_sequence
    claim_candidates claim_all claim_prepared prepare_claim ensure_pending next_attempt
    check_destination revalidate_accepted read_phase check_phase_record find_existing
    read_stored_digest parse_digest show bytes is_utf8 strip_last parse strip_prefix list_beq commit
    apply
claims_batch = refl

claim_batch-validate_claimed_example :
    Owned 20 claimed_disk (claimed_package ∷ []) × (ensure_no_active_scan idle_session ≡ ok tt)
claim_batch-validate_claimed_example =
    claim_batch-validate_claimed letters 20 5 4 none noon (some listing) idle_session idle_session
      accepted_disk claimed_disk (claimed_package ∷ []) 0 claims_batch
