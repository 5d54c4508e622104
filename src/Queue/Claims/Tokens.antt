-- ===== src/Queue/Claims/Tokens.antt =====
-- What the tokens of a claim are good for: the recovery answers the claim, its token gives the request
-- back, and the tokens of earlier attempts are refused.
use agent_knowledge.Prelude.{
  ℕ, ◌+◌, ◌≤◌, ◌≡◌, refl, sym, ◌∙◌, ap, true, false, not, Option, none, some, List, [], ◌∷◌, arith,
  subst, ◌==◌, ==_self, nat_eq, list_eq, ok, err, >>=-eq-ok, reject-eq-ok, ok-injective,
}
use agent_knowledge.Core.Time.{OffsetDateTime}
use agent_knowledge.Core.Id.{RequestId, BatchId}
use agent_knowledge.Core.ErrorCode.{ErrorCode}
use agent_knowledge.Queue.Disk.{
  QueueState, state_eq, pending, processing, completed, Package, Entry, Node, Disk, Effect, rename,
  commit,
}
use agent_knowledge.Queue.Failures.{claim_changed}
use agent_knowledge.Queue.Lookup.Placement.{IsAt, find_existing_state_at}
use agent_knowledge.Queue.Acceptance.{files_of}
use agent_knowledge.Queue.Claims.{
  ClaimToken, ClaimedPackage, phase_at, revalidate_accepted, next_attempt, ensure_pending,
  claim_record, claim_prepared, prepare_claim, claim, is_owned, requeue_claimed, recover_claim,
}
use agent_knowledge.Queue.Claims.Ownership.{
  Claimed, claim_prepared-Claimed, found_claim, held_phase,
}
use agent_knowledge.Queue.Results.{
  validate_claim_token, finish_claimed, transition_claimed, complete_claimed, fail_claimed,
}
use agent_knowledge.Queue.Steps.{attempts}
use agent_knowledge.Queue.Steps.Moves.{IsAt_unique}

revalidate_accepted_lem :
    (n : Node) (id : RequestId) (s : QueueState) (p : Package)
    → revalidate_accepted n id s ≡ ok p
    → files_of n ≡ ok p
unfolding revalidate_accepted
revalidate_accepted_lem n id s p h = ground arith

revalidate_accepted_ok :
    (n : Node) (id : RequestId) (s : QueueState) (p : Package)
    → files_of n ≡ ok p
    → revalidate_accepted n id s ≡ ok p
unfolding revalidate_accepted
revalidate_accepted_ok n id s p h = ground arith

prepare_claim_lem :
    (d : Disk) (id : RequestId) (p : Package)
    → prepare_claim d id ≡ ok p
    → (files_of (d.node pending id) ≡ ok p) × ((p.request_id == id) ≡ true)
unfolding prepare_claim
prepare_claim_lem d id p h =
    let (a, x, h1) = >>=-eq-ok (revalidate_accepted (d.node pending id) id pending) _ h in
    let (n, h2) = reject-eq-ok (not (a.request_id == id)) _ _ h1 in
    let (b, y, h3) = >>=-eq-ok (next_attempt (phase_at (d.node pending id)) id pending) _ h2 in
    let q = ok-injective h3 in
    (
      revalidate_accepted_lem _ id pending p (x ∙ ap ok q),
      subst (λ c. (c.request_id == id) ≡ true) q (ground arith),
    )

-- The recovery of a request that a claim has moved, on the disk that the claim leaves, answers the same
-- claim.
pub claim-recover_claim :
    (id : RequestId) (batch : BatchId) (now : OffsetDateTime) (d : Disk) (xs : List Effect)
    (c : ClaimedPackage)
    → claim id batch now d ≡ ok (xs, c)
    → recover_claim (commit xs d) id ≡ ok c
unfolding claim recover_claim
claim-recover_claim id batch now d xs c h =
    let (g, x, h1) = >>=-eq-ok (ensure_pending d id) _ h in
    let (p, y, h2) = >>=-eq-ok (prepare_claim d id) _ h1 in
    let k = claim_prepared-Claimed id batch p now d xs c h2 in
    let (files, same) = prepare_claim_lem d id p y in
    let at : files_of ((commit xs d).node processing id) ≡ ok p =
      ap files_of k.at.here ∙ (ap files_of (sym k.was.here) ∙ files) in
    rw
      (
        revalidate_accepted_ok _ id processing p at,
        same,
        held_phase id batch p now d xs c k,
        k.token,
      )
      refl

-- The token of a claim gives the request back.
pub claim_prepared-requeue_claimed :
    (id : RequestId) (batch : BatchId) (p : Package) (now : OffsetDateTime) (d : Disk)
    (xs : List Effect) (c : ClaimedPackage)
    → claim_prepared id batch p now d ≡ ok (xs, c)
    → requeue_claimed c.token (commit xs d) ≡ ok (rename processing pending id ∷ [], tt)
unfolding requeue_claimed
claim_prepared-requeue_claimed id batch p now d xs c h =
    let k = claim_prepared-Claimed id batch p now d xs c h in
    rw
      (
        k.token,
        found_claim id batch p now d xs c k,
        held_phase id batch p now d xs c k,
        ==_self batch,
        ==_self (attempts k.entry + 1),
      )
      refl

older_is_not_owned :
    (id : RequestId) (batch : BatchId) (n : ℕ) (now : OffsetDateTime) (token : ClaimToken)
    → token.attempt ≤ n
    → is_owned (claim_record id batch (n + 1) now) token ≡ false
older_is_not_owned id batch n now token h = ground arith

older_transition :
    (token : ClaimToken) (batch : BatchId) (p : Package) (now later : OffsetDateTime)
    (terminal : QueueState) (code : Option ErrorCode) (d : Disk) (xs : List Effect)
    (c : ClaimedPackage)
    → (k : Claimed token.request_id batch p now d xs c) → token.attempt ≤ attempts k.entry
    → (processing == terminal) ≡ false
    → transition_claimed token terminal code later (commit xs d)
      ≡ err (claim_changed token.request_id)
unfolding transition_claimed finish_claimed validate_claim_token
older_transition token batch p now later terminal code d xs c k h other =
    rw
      (
        find_existing_state_at (commit xs d) token.request_id processing _ k.at,
        other,
        held_phase token.request_id batch p now d xs c k,
        older_is_not_owned token.request_id batch (attempts k.entry) now token h,
      )
      refl

-- Once a pending request is claimed, a token whose attempt is at most that of the phase file before the
-- claim is refused, as a changed claim, when the request is to be given back, completed or failed.
pub claim_prepared_revokes_tokens :
    (token : ClaimToken) (batch : BatchId) (p : Package) (now later : OffsetDateTime)
    (code : ErrorCode) (e : Entry) (d : Disk) (xs : List Effect) (c : ClaimedPackage)
    → IsAt d token.request_id pending e
    → token.attempt ≤ attempts e
    → claim_prepared token.request_id batch p now d ≡ ok (xs, c)
    → (requeue_claimed token (commit xs d) ≡ err (claim_changed token.request_id))
      × (complete_claimed token later (commit xs d) ≡ err (claim_changed token.request_id))
      × (fail_claimed token code later (commit xs d) ≡ err (claim_changed token.request_id))
unfolding requeue_claimed
claim_prepared_revokes_tokens token batch p now later code e d xs c at old h =
    let k = claim_prepared-Claimed token.request_id batch p now d xs c h in
    let less : token.attempt ≤ attempts k.entry =
      subst (λ f. token.attempt ≤ attempts f)
        (IsAt_unique d token.request_id pending pending e k.entry at k.was).1 old in
    (
      rw
          (
            found_claim token.request_id batch p now d xs c k,
            held_phase token.request_id batch p now d xs c k,
            older_is_not_owned token.request_id batch (attempts k.entry) now token less,
          )
          refl,
      older_transition token batch p now later completed none d xs c k less refl,
      older_transition token batch p now later QueueState.failed (some code) d xs c k less refl,
    )
