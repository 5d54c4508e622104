-- ===== src/Queue/Tests.antt =====
-- One request from its acceptance to its end.
use agent_knowledge.Prelude.{
  ◌≡◌, refl, inl, ok, err, none, some, [], ◌∷◌, arith, bytes, is_utf8, strip_prefix, list_beq,
}
use agent_knowledge.Core.Id.{RequestId}
use agent_knowledge.Core.Revision.{show, parse}
use agent_knowledge.Core.Markdown.{strip_last}
use agent_knowledge.Core.ErrorCode.{invalid_request}
use agent_knowledge.Core.Document.Tests.{noon}
use agent_knowledge.Queue.Disk.{
  QueueState, pending, processing, completed, Entry, write_phase, write_result, rename, directory,
  put, apply, commit,
}
use agent_knowledge.Queue.Failures.{claim_changed}
use agent_knowledge.Queue.Lookup.{
  find_existing, find_existing_state, parse_digest, read_stored_digest,
}
use agent_knowledge.Queue.Lookup.Placement.{IsAt}
use agent_knowledge.Queue.Acceptance.{accepted, existing, accept, accept_new, allocate_sequence}
use agent_knowledge.Queue.Acceptance.Idempotence.{accept_again}
use agent_knowledge.Queue.Claims.{
  claim, claim_prepared, prepare_claim, ensure_pending, next_attempt, read_phase,
  read_required_phase, check_phase_record, revalidate_accepted, check_destination, requeue_claimed,
  recover_claim,
}
use agent_knowledge.Queue.Claims.Tokens.{claim-recover_claim, claim_prepared_revokes_tokens}
use agent_knowledge.Queue.Results.{
  transition_claimed, finish_claimed, validate_claim_token, result_effects, ensure_result_record,
  ensure_result_absent, complete_claimed, fail_claimed,
}
use agent_knowledge.Queue.Results.Recovery.{Ends}
use agent_knowledge.Queue.Results.Resumption.{fail_claimed_resumes, complete_claimed_resumes}
use agent_knowledge.Queue.Steps.{Run}
use agent_knowledge.Queue.Steps.Moves.{put-IsAt, enqueue-IsAt, move-IsAt, absent_not_IsAt}
use agent_knowledge.Queue.Steps.Validity.{IsValid}
use agent_knowledge.Queue.Steps.Invariant.{Run-IsValid}
use agent_knowledge.Queue.Steps.Operations.{accept-Run}
use agent_knowledge.Queue.Steps.Histories.{
  accepts, claims, Operation-Run, Reach, here, ends, Reach-IsValid, Remains, Reach-Remains,
}
use agent_knowledge.Queue.Sample.{
  staged, empty_disk, acceptance, accepted_disk, first_record, claiming, claimed_disk,
  accepted_package, token, claimed_package, digest, accepted_seven, claimed_seven, requeued_disk,
  reclaiming, reclaimed_disk, reclaimed_package, failure,
}

pub accepts_seven : accept staged noon none empty_disk ≡ ok (acceptance, accepted 7 digest)
unfolding accept accept_new allocate_sequence find_existing
accepts_seven = refl

pub claims_seven : claim 7 20 noon accepted_disk ≡ ok (claiming, claimed_package)
unfolding claim claim_prepared prepare_claim ensure_pending next_attempt read_phase
    check_phase_record revalidate_accepted check_destination commit apply find_existing
    read_stored_digest parse_digest show bytes is_utf8 strip_last parse strip_prefix list_beq
claims_seven = refl

prepared_seven :
    claim_prepared 7 20 accepted_package noon accepted_disk ≡ ok (claiming, claimed_package)
unfolding claim_prepared ensure_pending next_attempt read_phase check_phase_record check_destination
    commit apply find_existing read_stored_digest parse_digest show bytes is_utf8 strip_last parse
    strip_prefix list_beq
prepared_seven = refl

reclaims_seven :
    claim_prepared 7 21 accepted_package noon requeued_disk ≡ ok (reclaiming, reclaimed_package)
unfolding claim_prepared ensure_pending next_attempt read_phase check_phase_record check_destination
    commit apply find_existing read_stored_digest parse_digest show bytes is_utf8 strip_last parse
    strip_prefix list_beq
reclaims_seven = refl

fails_seven :
    fail_claimed token invalid_request noon claimed_disk
    ≡ ok (write_result processing 7 failure ∷ (rename processing QueueState.failed 7 ∷ []), tt)
unfolding transition_claimed finish_claimed validate_claim_token read_required_phase read_phase
    check_phase_record result_effects ensure_result_record ensure_result_absent find_existing_state
    commit apply
fails_seven = refl

pub completes_seven :
    complete_claimed token noon claimed_disk ≡ ok (rename processing completed 7 ∷ [], tt)
unfolding transition_claimed finish_claimed validate_claim_token read_required_phase read_phase
    check_phase_record result_effects ensure_result_record ensure_result_absent find_existing_state
    commit apply
completes_seven = refl

pub empty-IsValid : IsValid empty_disk
empty-IsValid = record {
  placed = λ id. inl (λ s. refl);
  numbered = λ id s e n at h. absurd (nothing id s e at);
  distinct = λ id k s t e f n at there p q. absurd (nothing id s e at);
  fits = λ id s e at. absurd (nothing id s e at);
}
  where
    nothing : (id : RequestId) (s : QueueState) (e : Entry) → ¬ IsAt empty_disk id s e
    nothing id s e at = absent_not_IsAt empty_disk id s e (λ t. refl) at

Operation-Run_example : Run empty_disk acceptance
Operation-Run_example =
    Operation-Run empty_disk acceptance empty-IsValid
      (accepts staged noon none (accepted 7 digest) accepts_seven)

-- The claim ends after its first write.
cut_off : Reach accepted_disk (commit (write_phase pending 7 first_record ∷ []) accepted_disk)
cut_off =
    ends (write_phase pending 7 first_record ∷ []) (rename pending processing 7 ∷ []) here
      (claims 7 20 noon claimed_package claims_seven)

Reach-IsValid_example : IsValid accepted_disk
Reach-IsValid_example =
    Reach-IsValid empty_disk accepted_disk empty-IsValid
      (ends acceptance [] here (accepts staged noon none (accepted 7 digest) accepts_seven))

accepted_at : IsAt accepted_disk 7 pending accepted_seven
unfolding commit apply
accepted_at = enqueue-IsAt (record empty_disk { next_sequence = 2 }) 7 accepted_seven (λ t. refl)

accepted-IsValid : IsValid accepted_disk
accepted-IsValid = Run-IsValid empty-IsValid (
    accept-Run staged noon none empty_disk acceptance (accepted 7 digest) empty-IsValid
      accepts_seven)

Reach-Remains_example :
    Remains
      (commit (write_phase pending 7 first_record ∷ []) accepted_disk)
      7
      pending
      accepted_seven
Reach-Remains_example =
    Reach-Remains accepted_disk (commit (write_phase pending 7 first_record ∷ []) accepted_disk) 7
      pending accepted_seven accepted-IsValid accepted_at cut_off

-- The same package, and another one of the same identifier.
accept_again_example : accept staged noon none accepted_disk ≡ ok ([], existing 7 digest pending)
unfolding list_beq
accept_again_example =
    accept_again staged staged noon noon none none empty_disk acceptance (accepted 7 digest)
      (omega arith) refl accepts_seven

claim-recover_claim_example : recover_claim claimed_disk 7 ≡ ok claimed_package
claim-recover_claim_example =
    claim-recover_claim 7 20 noon accepted_disk claiming claimed_package claims_seven

-- The request is given back and claimed again.
claimed_at : IsAt claimed_disk 7 processing claimed_seven
unfolding commit apply
claimed_at =
    move-IsAt (put pending 7 (directory claimed_seven) accepted_disk) 7 pending processing
      claimed_seven (λ q. cc)
      (put-IsAt accepted_disk 7 pending accepted_seven claimed_seven accepted_at)

requeued_at : IsAt requeued_disk 7 pending claimed_seven
unfolding commit apply
requeued_at = move-IsAt claimed_disk 7 processing pending claimed_seven (λ q. cc) claimed_at

claim_prepared_revokes_tokens_example :
    (requeue_claimed token reclaimed_disk ≡ err (claim_changed 7))
    × (complete_claimed token noon reclaimed_disk ≡ err (claim_changed 7))
    × (fail_claimed token invalid_request noon reclaimed_disk ≡ err (claim_changed 7))
claim_prepared_revokes_tokens_example =
    claim_prepared_revokes_tokens token 21 accepted_package noon noon invalid_request claimed_seven
      requeued_disk reclaiming reclaimed_package requeued_at (omega arith) reclaims_seven

-- The failure ends after the result is written.
fail_claimed_resumes_example :
    Ends token QueueState.failed
      (some invalid_request)
      noon
      (commit (write_result processing 7 failure ∷ []) claimed_disk)
fail_claimed_resumes_example =
    fail_claimed_resumes token invalid_request noon noon claimed_disk
      (write_result processing 7 failure ∷ []) (rename processing QueueState.failed 7 ∷ [])
      fails_seven

complete_claimed_resumes_example :
    Ends token completed none noon (commit (rename processing completed 7 ∷ []) claimed_disk)
complete_claimed_resumes_example =
    complete_claimed_resumes token noon noon claimed_disk (rename processing completed 7 ∷ []) []
      completes_seven
