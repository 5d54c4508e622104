-- ===== src/Queue/Steps/Validity.antt =====
-- The invariant of the queue: one place for each request, one number for each package, and a result for
-- exactly the requests that failed.
use agent_knowledge.Prelude.{
  ℕ, ◌≤◌, ◌<◌, ◌≡◌, sym, ◌∙◌, ap, ◌≢◌, ◌⊎◌, inl, inr, Bool-cases, ◌==◌, ==_iff, nat_eq, some, arith,
  subst,
}
use agent_knowledge.Core.Id.{RequestId}
use agent_knowledge.Queue.Disk.{
  QueueState, pending, processing, completed, failed, Entry, Node, absent, directory, Disk, Effect,
  enqueue, put, apply,
}
use agent_knowledge.Queue.Lookup.Placement.{IsAt, IsAbsent}
use agent_knowledge.Queue.Steps.{
  sequence_of, Permitted, number, accept, prepare, start, requeue, report, complete, fail,
}
use agent_knowledge.Queue.Steps.Moves.{put_request, keep-IsAbsent, enqueue-IsAt, absent_not_IsAt}
use agent_knowledge.Queue.Steps.Progress.{Fits}

abbrev pub Stands : Disk → RequestId → Type 0
Stands d id = (s : QueueState) × (e : Entry) × IsAt d id s e

pub record IsValid (d : Disk) : Type 0 where
  pub placed : (id : RequestId) → IsAbsent d id ⊎ Stands d id
  pub numbered :
      (id : RequestId) (s : QueueState) (e : Entry) (n : ℕ)
      → IsAt d id s e
      → sequence_of e ≡ some n
      → n < d.next_sequence
  pub distinct :
      (id k : RequestId) (s t : QueueState) (e f : Entry) (n : ℕ)
      → IsAt d id s e
      → IsAt d k t f
      → sequence_of e ≡ some n
      → sequence_of f ≡ some n
      → id ≡ k
  pub fits : (id : RequestId) (s : QueueState) (e : Entry) → IsAt d id s e → Fits s e

other-IsAbsent :
    (d f : Disk) (id k : RequestId) (s : QueueState) (e : Entry)
    → IsAt d id s e
    → ((t : QueueState) → k ≢ id → f.node t k ≡ d.node t k)
    → IsAbsent d k
    → IsAbsent f k
other-IsAbsent d f id k s e here same gone =
    keep-IsAbsent d f k
      (λ t. same t (λ q. absent_not_IsAt d id s e (subst (IsAbsent d) q gone) here)) gone

moved-IsAbsent :
    (d : Disk) (id k : RequestId) (s t : QueueState) (e : Entry)
    → IsAt d id s e
    → IsAbsent d k
    → IsAbsent (put s id absent (put t id (d.node s id) d)) k
moved-IsAbsent d id k s t e here =
    other-IsAbsent d (put s id absent (put t id (d.node s id) d)) id k s e here (λ u q.
      put_request s u id k absent (put t id (d.node s id) d) q
      ∙ put_request t u id k (d.node s id) d q)

rewritten-IsAbsent :
    (d : Disk) (id k : RequestId) (s : QueueState) (e : Entry) (n : Node)
    → IsAt d id s e
    → IsAbsent d k
    → IsAbsent (put s id n d) k
rewritten-IsAbsent d id k s e n here =
    other-IsAbsent d (put s id n d) id k s e here (λ t. put_request s t id k n d)

-- Only an acceptance brings a request into the queue.
abbrev pub Arrived : Disk → Effect → RequestId → Type 0
Arrived d x k = (e : Entry) × (x ≡ enqueue k e) × IsAt (apply x d) k pending e

pub Permitted-Arrived :
    {d : Disk} {x : Effect} (k : RequestId)
    → Permitted d x
    → IsAbsent d k
    → IsAbsent (apply x d) k ⊎ Arrived d x k
unfolding apply
Permitted-Arrived {d} k (number h) gone = inl gone
Permitted-Arrived {d} k (accept {id} {e} free _ _ _ _) gone = elim (Bool-cases (k == id)) [
  | inl y ↦ inr (arrived ((==_iff k id).0 y))
  | inr n ↦ inl (
      keep-IsAbsent d (put pending id (directory e) d) k
        (λ t. put_request pending t id k (directory e) d (λ q. ground (arith, ==_iff k id))) gone)
]
  where
    arrived :
        k ≡ id
        → (f : Entry) × (enqueue id e ≡ enqueue k f)
          × IsAt (put pending id (directory e) d) k pending f
    arrived q = (
      e,
      ap (λ i. enqueue i e) (sym q),
      subst (λ i. IsAt (put pending id (directory e) d) i pending e) (sym q)
          (enqueue-IsAt d id e free),
    )
Permitted-Arrived {d} k (prepare {id} {e} {r} here more) gone =
    inl (rewritten-IsAbsent d id k pending e _ here gone)
Permitted-Arrived {d} k (start {id} {e} here _) gone =
    inl (moved-IsAbsent d id k pending processing e here gone)
Permitted-Arrived {d} k (requeue {id} {e} here) gone =
    inl (moved-IsAbsent d id k processing pending e here gone)
Permitted-Arrived {d} k (report {id} {s} {e} {r} here n m) gone =
    inl (rewritten-IsAbsent d id k s e _ here gone)
Permitted-Arrived {d} k (complete {id} {e} here _) gone =
    inl (moved-IsAbsent d id k processing completed e here gone)
Permitted-Arrived {d} k (fail {id} {s} {e} here n m _) gone =
    inl (moved-IsAbsent d id k s failed e here gone)

pub Permitted-next_sequence :
    {d : Disk} {x : Effect} → Permitted d x → d.next_sequence ≤ (apply x d).next_sequence
unfolding apply
Permitted-next_sequence (number h) = omega arith
Permitted-next_sequence (accept _ _ _ _ _) = omega arith
Permitted-next_sequence (prepare _ _) = omega arith
Permitted-next_sequence (start _ _) = omega arith
Permitted-next_sequence (requeue _) = omega arith
Permitted-next_sequence (report _ _ _) = omega arith
Permitted-next_sequence (complete _ _) = omega arith
Permitted-next_sequence (fail _ _ _ _) = omega arith
