-- ===== src/Queue/Reconciliation/Placement.antt =====
-- Where the requests of a batch stand after it is reconciled.
use agent_knowledge.Prelude.{
  ◌≡◌, refl, sym, ◌∙◌, ap, true, List, [], ◌∷◌, ◌++◌, append-nil, All, subst, some, Result, ok, err,
  arith,
}
use agent_knowledge.Core.Time.{OffsetDateTime}
use agent_knowledge.Core.Id.{BatchId}
use agent_knowledge.Core.ErrorCode.{ErrorCode}
use agent_knowledge.Core.Revision.{Revision}
use agent_knowledge.Queue.Disk.{QueueState, Entry, Disk, Effect, commit}
use agent_knowledge.Queue.Failures.{WorkerQueueError}
use agent_knowledge.Queue.Lookup.{find_existing_state}
use agent_knowledge.Queue.Lookup.Placement.{IsAt, find_existing_state_at}
use agent_knowledge.Queue.Claims.{ClaimToken, Planned}
use agent_knowledge.Queue.Session.{WorkerSession}
use agent_knowledge.Queue.Results.Arrival.{transition_claimed-IsAt}
use agent_knowledge.Queue.Steps.Progress.{IsFinal, is_completed, is_failed}
use agent_knowledge.Queue.Steps.Validity.{IsValid}
use agent_knowledge.Queue.Steps.Histories.{
  Operation, completes, fails, Reach, here, ends, Reach-IsValid, Reach-Remains,
}
use agent_knowledge.Queue.Reconciliation.{
  ReconciledOutcome, BatchReconciliation, token_of, expected_outcomes, is_reconcilable, transition,
  transition_all, sort_outcomes, reconcile_batch,
}

-- The state that an outcome is to lead to.
abbrev pub terminal_of : ReconciledOutcome → QueueState
terminal_of (ReconciledOutcome.completed token) = QueueState.completed
terminal_of (ReconciledOutcome.failed token code) = QueueState.failed

final : (o : ReconciledOutcome) → IsFinal (terminal_of o)
final (ReconciledOutcome.completed token) = is_completed
final (ReconciledOutcome.failed token code) = is_failed

transition-Operation :
    (now : OffsetDateTime) (o : ReconciledOutcome) (d : Disk) (xs : List Effect) (u : Unit {0})
    → transition now o d ≡ ok (xs, u)
    → Operation d (xs ++ [])
transition-Operation now (ReconciledOutcome.completed token) d xs u h =
    subst (Operation d) (sym (append-nil xs)) (completes token now u h)
transition-Operation now (ReconciledOutcome.failed token code) d xs u h =
    subst (Operation d) (sym (append-nil xs)) (fails token code now u h)

transition-IsAt :
    (now : OffsetDateTime) (o : ReconciledOutcome) (d : Disk) (xs : List Effect) (u : Unit {0})
    → transition now o d ≡ ok (xs, u)
    → (e : Entry) × IsAt (commit xs d) (token_of o).request_id (terminal_of o) e
transition-IsAt now (ReconciledOutcome.completed token) d xs u h =
    transition_claimed-IsAt token _ _ now d xs u (λ q. cc) h
transition-IsAt now (ReconciledOutcome.failed token code) d xs u h =
    transition_claimed-IsAt token _ _ now d xs u (λ q. cc) h

abbrev pub IsReconciled : Disk → ReconciledOutcome → Type 0
IsReconciled d o = find_existing_state d (token_of o).request_id ≡ ok (some (terminal_of o))

-- What comes after, once a request is terminal.
stays :
    (d f : Disk) (o : ReconciledOutcome) (e : Entry)
    → IsValid d
    → Reach d f
    → IsAt d (token_of o).request_id (terminal_of o) e
    → IsReconciled f o
stays d f o e valid reach at =
    let (t, g, there, out) =
      Reach-Remains d f (token_of o).request_id (terminal_of o) e valid at reach in
    find_existing_state_at f (token_of o).request_id t g there
    ∙ ap (λ s. ok (some s)) (out.fixed (final o)).0

Reach-trans : {d f g : Disk} → Reach d f → Reach f g → Reach d g
Reach-trans r here = r
Reach-trans r (ends xs ys q o) = ends xs ys (Reach-trans r q) o

-- All the outcomes are there, and what led to them are operations.
transition_all-IsReconciled :
    (now : OffsetDateTime) (d f : Disk) (os : List ReconciledOutcome)
    → IsValid d
    → transition_all now d os ≡ (f, ok tt)
    → Reach d f × All (IsReconciled f) os
unfolding transition_all
transition_all-IsReconciled now d f [] valid h = (subst (Reach d) (ap (λ q. q.0) h) here, tt)
transition_all-IsReconciled now d f (o ∷ os) valid h =
    next (λ g v k. transition_all-IsReconciled now g f os v k) (transition now o d) refl h
  where
    after :
        (xs : List Effect) (u : Unit {0})
        → transition now o d ≡ ok (xs, u)
        → Reach (commit xs d) f × All (IsReconciled f) os
        → Reach d f × All (IsReconciled f) (o ∷ os)
    after xs u q (reach, rest) =
        let first = ends xs [] here (transition-Operation now o d xs u q) in
        let (e, at) = transition-IsAt now o d xs u q in
        (
          Reach-trans first reach,
          (stays (commit xs d) f o e (Reach-IsValid d (commit xs d) valid first) reach at, rest),
        )

    next :
        ((g : Disk)
          → IsValid g
          → transition_all now g os ≡ (f, ok tt)
          → Reach g f × All (IsReconciled f) os)
        → (r : Planned (Unit {0})) → transition now o d ≡ r
        → ◌≡◌ {A = Disk × Result WorkerQueueError (Unit {0})}
            (elim r [ ok (xs, u) ↦ transition_all now (commit xs d) os | err e ↦ (d, err e) ])
            (f, ok tt)
        → Reach d f × All (IsReconciled f) (o ∷ os)
    next rest (err e) q k = absurd (clash k)
      where
        clash : ◌≡◌ {A = Disk × Result WorkerQueueError (Unit {0})} (d, err e) (f, ok tt) → ⊥
        clash k = cc
    next rest (ok (xs, u)) q k = after xs u q (
        rest (commit xs d)
          (Reach-IsValid d (commit xs d) valid
            (ends xs [] here (transition-Operation now o d xs u q)))
          k)

pub reconcile_batch-done :
    (identity : Revision) (batch : BatchId) (successful : List ClaimToken)
    (failures : List (ClaimToken × ErrorCode)) (now : OffsetDateTime) (s : WorkerSession)
    (d f : Disk) (r : BatchReconciliation)
    → reconcile_batch identity batch successful failures now s d ≡ (f, ok r)
    → (transition_all now d (expected_outcomes successful failures) ≡ (f, ok tt))
      × (is_reconcilable batch successful failures ≡ true)
      × (r ≡ record {
        queue_identity = identity;
        batch_id = batch;
        outcomes = sort_outcomes (expected_outcomes successful failures);
      })
unfolding reconcile_batch
reconcile_batch-done identity batch successful failures now s d f r h = ground arith

-- After a batch of a valid queue is reconciled, the queue is valid, every request that was reported
-- successful stands among the completed ones, and every other among the failed ones.
pub reconcile_batch_sound :
    (identity : Revision) (batch : BatchId) (successful : List ClaimToken)
    (failures : List (ClaimToken × ErrorCode)) (now : OffsetDateTime) (s : WorkerSession)
    (d f : Disk) (r : BatchReconciliation)
    → IsValid d
    → reconcile_batch identity batch successful failures now s d ≡ (f, ok r)
    → IsValid f × All (IsReconciled f) (expected_outcomes successful failures)
reconcile_batch_sound identity batch successful failures now s d f r valid h =
    let (x, y, z) = reconcile_batch-done identity batch successful failures now s d f r h in
    let (reach, all) =
      transition_all-IsReconciled now d f (expected_outcomes successful failures) valid x in
    (Reach-IsValid d f valid reach, all)
