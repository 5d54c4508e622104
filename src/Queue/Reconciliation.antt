-- ===== src/Queue/Reconciliation.antt =====
-- The end of a batch: `reconcile_batch` of crates/queue/src/file_queue/worker/result.rs, and the proof that
-- it answers. The identity of the queue, a digest of its root, is an argument, and the clock stands still.
pub mod Proof
pub mod Placement
use agent_knowledge.Prelude.{
  ℕ, Bool, true, false, not, ◌&&◌, ◌||◌, List, [], ◌∷◌, ◌++◌, map, ◌==◌, PartialEq, nat_eq, list_eq,
  if◌then◌else◌, leb, contains, is_empty, Result, ok, err, ◌>>=◌, ◌>>◌, reject, ◌≡◌, ◌↔◌, arith,
  ==_iff,
}
use agent_knowledge.Core.Time.{OffsetDateTime}
use agent_knowledge.Core.Id.{RequestId, BatchId}
use agent_knowledge.Core.ErrorCode.{ErrorCode, code_eq}
use agent_knowledge.Core.Revision.{Revision}
use agent_knowledge.Queue.Disk.{Disk, Effect, commit}
use agent_knowledge.Queue.Failures.{WorkerQueueError, invalid_reconciliation}
use agent_knowledge.Queue.Claims.{ClaimToken, Planned}
use agent_knowledge.Queue.Results.{complete_claimed, fail_claimed}
use agent_knowledge.Queue.Session.{WorkerSession, ensure_no_active_scan}

pub data ReconciledOutcome : Type 0 where
  completed : ClaimToken → ReconciledOutcome
  failed : ClaimToken → ErrorCode → ReconciledOutcome

pub record BatchReconciliation : Type 0 where
  pub queue_identity : Revision
  pub batch_id : BatchId
  pub outcomes : List ReconciledOutcome

abbrev pub token_of : ReconciledOutcome → ClaimToken
token_of (completed token) = token
token_of (failed token code) = token

abbrev pub token_beq : ClaimToken → ClaimToken → Bool
token_beq a b = a.request_id == b.request_id && (a.batch_id == b.batch_id && a.attempt == b.attempt)

abbrev pub outcome_beq : ReconciledOutcome → ReconciledOutcome → Bool
outcome_beq (completed a) (completed b) = token_beq a b
outcome_beq (failed a c) (failed b e) = token_beq a b && c == e
outcome_beq _ _ = false

pub outcome_beq_iff : (a b : ReconciledOutcome) → (outcome_beq a b ≡ true) ↔ (a ≡ b)
outcome_beq_iff (completed a) (completed b) = ground arith
outcome_beq_iff (completed a) (failed b e) = ground arith
outcome_beq_iff (failed a c) (completed b) = ground arith
outcome_beq_iff (failed a c) (failed b e) = ground (arith, ==_iff c e)

instance abbrev pub outcome_eq : PartialEq ReconciledOutcome
outcome_eq = record { eq = outcome_beq; eq_iff = outcome_beq_iff }

-- `sort_outcomes`
unfoldable pub insert_outcome : ReconciledOutcome → List ReconciledOutcome → List ReconciledOutcome
insert_outcome o [] = o ∷ []
insert_outcome o (x ∷ xs) =
    let rest = insert_outcome o xs in
    if leb (token_of o).request_id (token_of x).request_id then o ∷ (x ∷ xs) else x ∷ rest

unfoldable pub sort_outcomes : List ReconciledOutcome → List ReconciledOutcome
sort_outcomes [] = []
sort_outcomes (o ∷ os) = insert_outcome o (sort_outcomes os)

abbrev pub failed_outcome : ClaimToken × ErrorCode → ReconciledOutcome
failed_outcome f = failed f.0 f.1

abbrev pub expected_outcomes :
    List ClaimToken → List (ClaimToken × ErrorCode) → List ReconciledOutcome
expected_outcomes successful failures = map completed successful ++ map failed_outcome failures

unfoldable pub validates :
    BatchReconciliation
    → Revision
    → BatchId
    → List ClaimToken
    → List (ClaimToken × ErrorCode)
    → Bool
validates r identity batch successful failures =
    if not (r.queue_identity == identity) || not (r.batch_id == batch)
    then false
    else sort_outcomes (expected_outcomes successful failures) == r.outcomes

-- Every token is of the batch, and no request is there twice.
unfoldable pub are_distinct : BatchId → List RequestId → List ReconciledOutcome → Bool
are_distinct batch seen [] = true
are_distinct batch seen (o ∷ os) =
    let rest = are_distinct batch ((token_of o).request_id ∷ seen) os in
    (token_of o).batch_id == batch && (not (contains (token_of o).request_id seen) && rest)

unfoldable pub is_reconcilable : BatchId → List ClaimToken → List (ClaimToken × ErrorCode) → Bool
is_reconcilable batch successful failures =
    (not (is_empty successful) || not (is_empty failures))
    && are_distinct batch [] (expected_outcomes successful failures)

abbrev pub transition : OffsetDateTime → ReconciledOutcome → Disk → Planned (Unit {0})
transition now (completed token) = complete_claimed token now
transition now (failed token code) = fail_claimed token code now

-- The two loops of `reconcile_batch`.
unfoldable pub transition_all :
    OffsetDateTime → Disk → List ReconciledOutcome → Disk × Result WorkerQueueError (Unit {0})
transition_all now d [] = (d, ok tt)
transition_all now d (o ∷ os) = elim (transition now o d) [
  | ok (xs, u) ↦ transition_all now (commit xs d) os
  | err e ↦ (d, err e)
]

abbrev pub proof_of :
    Revision
    → BatchId
    → List ReconciledOutcome
    → Disk × Result WorkerQueueError (Unit {0})
    → Disk × Result WorkerQueueError BatchReconciliation
proof_of identity batch outcomes (f, ok u) = (
  f,
  ok (record { queue_identity = identity; batch_id = batch; outcomes = sort_outcomes outcomes }),
)
proof_of identity batch outcomes (f, err e) = (f, err e)

unfoldable pub reconcile_batch :
    Revision
    → BatchId
    → List ClaimToken
    → List (ClaimToken × ErrorCode)
    → OffsetDateTime
    → WorkerSession
    → Disk
    → Disk × Result WorkerQueueError BatchReconciliation
reconcile_batch identity batch successful failures now s d =
    let valid : Result WorkerQueueError (Unit {0}) =
      ensure_no_active_scan s
      >> reject (not (is_reconcilable batch successful failures)) invalid_reconciliation in
    elim valid [
      | err e ↦ (d, err e)
      | ok u ↦
          proof_of identity batch (expected_outcomes successful failures)
            (transition_all now d (expected_outcomes successful failures))
    ]
