-- ===== src/Queue/Steps/Histories.antt =====
-- Sequences of operations of the queue, each of which may end after any of its writes.
use agent_knowledge.Prelude.{
  ◌≤◌, ◌≡◌, refl, sym, ◌∙◌, Option, List, [], ◌∷◌, ◌++◌, arith, subst, ok, Text,
}
use agent_knowledge.Core.Time.{OffsetDateTime}
use agent_knowledge.Core.Id.{RequestId, BatchId}
use agent_knowledge.Core.ErrorCode.{ErrorCode}
use agent_knowledge.Queue.Disk.{QueueState, Package, Entry, Disk, Effect, apply, commit}
use agent_knowledge.Queue.Lookup.Placement.{IsAt}
use agent_knowledge.Queue.Acceptance.{accept, EnqueueOutcome}
use agent_knowledge.Queue.Claims.{
  ClaimToken, ClaimedPackage, claim, claim_prepared, requeue_claimed,
}
use agent_knowledge.Queue.Results.{complete_claimed, fail_claimed, fail_pending}
use agent_knowledge.Queue.Steps.{attempts, Run, done, next}
use agent_knowledge.Queue.Steps.Progress.{IsFinal, Transition, Follows, Permitted-Follows}
use agent_knowledge.Queue.Steps.Validity.{IsValid}
use agent_knowledge.Queue.Steps.Invariant.{Run-IsValid}
use agent_knowledge.Queue.Steps.Operations.{
  accept-Run, claim-Run, claim_prepared-Run, requeue_claimed-Run,
}
use agent_knowledge.Queue.Steps.Outcomes.{complete_claimed-Run, fail_claimed-Run, fail_pending-Run}

-- An operation that succeeds, with its writes.
pub data Operation (d : Disk) : List Effect → Type 0 where
  accepts :
      {xs : List Effect} (p : Package) (now : OffsetDateTime) (client : Option Text)
      (o : EnqueueOutcome)
      → accept p now client d ≡ ok (xs, o)
      → Operation d xs
  claims :
      {xs : List Effect} (id : RequestId) (batch : BatchId) (now : OffsetDateTime)
      (c : ClaimedPackage)
      → claim id batch now d ≡ ok (xs, c)
      → Operation d xs
  claims_prepared :
      {xs : List Effect} (id : RequestId) (batch : BatchId) (p : Package) (now : OffsetDateTime)
      (c : ClaimedPackage)
      → claim_prepared id batch p now d ≡ ok (xs, c)
      → Operation d xs
  requeues :
      {xs : List Effect} (token : ClaimToken) (u : Unit {0})
      → requeue_claimed token d ≡ ok (xs, u)
      → Operation d xs
  completes :
      {xs : List Effect} (token : ClaimToken) (now : OffsetDateTime) (u : Unit {0})
      → complete_claimed token now d ≡ ok (xs, u)
      → Operation d xs
  fails :
      {xs : List Effect} (token : ClaimToken) (code : ErrorCode) (now : OffsetDateTime)
      (u : Unit {0})
      → fail_claimed token code now d ≡ ok (xs, u)
      → Operation d xs
  refuses :
      {xs : List Effect} (id : RequestId) (batch : BatchId) (code : ErrorCode)
      (now : OffsetDateTime) (u : Unit {0})
      → fail_pending id batch code now d ≡ ok (xs, u)
      → Operation d xs

-- On a valid queue, each write of an operation that succeeds is a permitted step where it is done.
pub Operation-Run : (d : Disk) (xs : List Effect) → IsValid d → Operation d xs → Run d xs
Operation-Run d xs valid (accepts p now client o h) = accept-Run p now client d xs o valid h
Operation-Run d xs valid (claims id batch now c h) = claim-Run id batch now d xs c h
Operation-Run d xs valid (claims_prepared id batch p now c h) =
    claim_prepared-Run id batch p now d xs c h
Operation-Run d xs valid (requeues token u h) = requeue_claimed-Run token d xs u h
Operation-Run d xs valid (completes token now u h) = complete_claimed-Run token now d xs u h
Operation-Run d xs valid (fails token code now u h) = fail_claimed-Run token code now d xs u h
Operation-Run d xs valid (refuses id batch code now u h) =
    fail_pending-Run id batch code now d xs u h

-- The disks that operations lead to: an operation that does `xs ++ ys` may end after `xs`.
pub data Reach (d : Disk) : Disk → Type 0 where
  here : Reach d d
  ends :
      {g : Disk} (xs ys : List Effect) → Reach d g → Operation g (xs ++ ys) → Reach d (commit xs g)

Run-prefix : (d : Disk) (xs ys : List Effect) → Run d (xs ++ ys) → Run d xs
Run-prefix d [] ys run = done
Run-prefix d (x ∷ xs) ys (next step run) = next step (Run-prefix (apply x d) xs ys run)

-- From a valid queue, operations that may each end after any of their writes lead only to valid queues.
pub Reach-IsValid : (d f : Disk) → IsValid d → Reach d f → IsValid f
Reach-IsValid d f valid here = valid
Reach-IsValid d f valid (ends {g} xs ys before o) =
    let at_end = Reach-IsValid d g valid before in
    Run-IsValid at_end (Run-prefix g xs ys (Operation-Run g (xs ++ ys) at_end o))

-- Transitions one after the other.
pub data Life (s : QueueState) : QueueState → Type 0 where
  start : Life s s
  then_on : {t u : QueueState} → Life s t → Transition t u → Life s u

-- What comes of a request over time.
pub record Outlives (s : QueueState) (e : Entry) (t : QueueState) (f : Entry) : Type 0 where
  pub life : Life s t
  pub same_digest : f.digest ≡ e.digest
  pub same_files : f.package_files ≡ e.package_files
  pub attempts_grow : attempts e ≤ attempts f
  pub fixed : IsFinal s → (t ≡ s) × (f ≡ e)

Outlives-step :
    (s t u : QueueState) (e f g : Entry) → Outlives s e t f → Follows t f u g → Outlives s e u g
Outlives-step s t u e f g h k = record {
  life = then_on h.life k.transition;
  same_digest = k.same_digest ∙ h.same_digest;
  same_files = k.same_files ∙ h.same_files;
  attempts_grow = more h.attempts_grow k.attempts_grow;
  fixed = λ q.
      let (a, b) = h.fixed q in let (x, y) = k.fixed (subst IsFinal (sym a) q) in (x ∙ a, y ∙ b);
}
  where
    more : attempts e ≤ attempts f → attempts f ≤ attempts g → attempts e ≤ attempts g
    more a b = omega arith

abbrev pub Remains : Disk → RequestId → QueueState → Entry → Type 0
Remains d id s e = (t : QueueState) × (f : Entry) × IsAt d id t f × Outlives s e t f

Run-Remains :
    (d : Disk) (xs : List Effect) (k : RequestId) (s : QueueState) (e : Entry)
    → Run d xs
    → Remains d k s e
    → Remains (commit xs d) k s e
unfolding commit
Run-Remains d xs k s e done h = h
Run-Remains d zs k s e (next {x} {xs} step run) (t, f, at, out) =
    let (u, g, there, more) = Permitted-Follows k t f step at in
    Run-Remains (apply x d) xs k s e run (u, g, there, Outlives-step s t u e f g out more)

-- A request of a valid queue is never lost, whatever operations follow, each of which may end after any of
-- its writes: it stands in one state that its life leads to, with the same package and digest, its attempts
-- have not decreased, and if it was terminal, it and its state are unchanged.
pub Reach-Remains :
    (d f : Disk) (k : RequestId) (s : QueueState) (e : Entry)
    → IsValid d
    → IsAt d k s e
    → Reach d f
    → Remains f k s e
Reach-Remains d f k s e valid at here = (
  s,
  e,
  at,
  record {
    life = start;
    same_digest = refl;
    same_files = refl;
    attempts_grow = omega arith;
    fixed = λ q. (refl, refl);
  },
)
Reach-Remains d f k s e valid at (ends {g} xs ys before o) =
    Run-Remains g xs k s e
      (Run-prefix g xs ys (Operation-Run g (xs ++ ys) (Reach-IsValid d g valid before) o))
      (Reach-Remains d g k s e valid at before)
