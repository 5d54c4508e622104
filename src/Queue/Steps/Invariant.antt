-- ===== src/Queue/Steps/Invariant.antt =====
-- The permitted writes keep the invariant of the queue, and what a run of them leaves of a request.
use agent_knowledge.Prelude.{ℕ, ◌≤◌, ◌<◌, ◌≡◌, sym, ◌∙◌, ◌⊎◌, inl, inr, some, List, arith, subst}
use agent_knowledge.Core.Id.{RequestId}
use agent_knowledge.Queue.Disk.{
  QueueState, pending, missing, Entry, Disk, Effect, enqueue, apply, commit,
}
use agent_knowledge.Queue.Lookup.Placement.{IsAt, IsAbsent}
use agent_knowledge.Queue.Steps.{sequence_of, IsUnused, Permitted, accept, Run, done, next}
use agent_knowledge.Queue.Steps.Moves.{IsAt_unique, absent_not_IsAt}
use agent_knowledge.Queue.Steps.Progress.{Fits, Follows, Successor, Permitted-Follows}
use agent_knowledge.Queue.Steps.Validity.{
  Stands, IsValid, Arrived, Permitted-Arrived, Permitted-next_sequence,
}

-- Where a request of the next disk comes from.
abbrev Origin : Disk → Effect → RequestId → QueueState → Entry → Type 0
Origin d x k t f =
    ((s : QueueState) × (e : Entry) × IsAt d k s e × Follows s e t f)
    ⊎ ((t ≡ pending) × (x ≡ enqueue k f))

origin :
    {d : Disk} {x : Effect} (k : RequestId) (t : QueueState) (f : Entry)
    → IsValid d
    → Permitted d x
    → IsAt (apply x d) k t f
    → Origin d x k t f
origin {d} {x} k t f valid step at = elim (valid.placed k) [
  | inl gone ↦ elim (Permitted-Arrived k step gone) [
    | inl still ↦ absurd (absent_not_IsAt (apply x d) k t f still at)
    | inr new ↦ arrived new
  ]
  | inr old ↦
      inl (old.0, old.1, old.2, followed old.0 old.1 (Permitted-Follows k old.0 old.1 step old.2))
]
  where
    arrived : Arrived d x k → Origin d x k t f
    arrived (e, q, there) =
        let (u, v) = IsAt_unique (apply x d) k t pending f e at there in
        inr (u, subst (λ y. x ≡ enqueue k y) (sym v) q)

    followed : (s : QueueState) (e : Entry) → Successor (apply x d) k s e → Follows s e t f
    followed s e (u, g, there, out) =
        let (p, q) = IsAt_unique (apply x d) k u t g f there at in
        subst (λ y. Follows s e y f) p (subst (λ y. Follows s e u y) q out)

-- What an acceptance knows of its package.
record New (d : Disk) (f : Entry) : Type 0 where
  number : ℕ
  has : sequence_of f ≡ some number
  below : number < d.next_sequence
  unused : IsUnused d number
  no_result : f.result ≡ missing

New-entry : {d : Disk} (k : RequestId) (f : Entry) → Permitted d (enqueue k f) → New d f
New-entry k f (accept {id} {e} {n} _ r h l u) = record {
  number = n;
  has = h;
  below = l;
  unused = u;
  no_result = r;
}

-- The number of a package that was there before, and of one that is new.
numbered_step :
    {d : Disk} {x : Effect} (k : RequestId) (t : QueueState) (f : Entry) (n : ℕ)
    → IsValid d
    → Permitted d x
    → Origin d x k t f
    → sequence_of f ≡ some n
    → n < d.next_sequence
numbered_step k t f n valid step (inl (s, e, at, out)) h =
    valid.numbered k s e n at (rw (sym out.same_files) h)
numbered_step {d} k t f n valid step (inr (p, q)) h =
    let new = New-entry k f (subst (Permitted d) q step) in ground (arith, new.has, new.below, h)

distinct_step :
    {d : Disk} {x : Effect} (id k : RequestId) (s t : QueueState) (e f : Entry) (n : ℕ)
    → IsValid d
    → Permitted d x
    → Origin d x id s e
    → Origin d x k t f
    → sequence_of e ≡ some n
    → sequence_of f ≡ some n
    → id ≡ k
distinct_step id k s t e f n valid step (inl (u, g, at, out)) (inl (v, h, there, end)) p q =
    valid.distinct id k u v g h n at there (rw (sym out.same_files) p) (rw (sym end.same_files) q)
distinct_step {d} id k s t e f n valid step (inl (u, g, at, out)) (inr (r, new)) p q =
    let fresh = New-entry k f (subst (Permitted d) new step) in
    absurd (fresh.unused u id g at.here ((rw (sym out.same_files) p) ∙ sym q ∙ fresh.has))
distinct_step {d} id k s t e f n valid step (inr (r, new)) (inl (v, h, there, end)) p q =
    let fresh = New-entry id e (subst (Permitted d) new step) in
    absurd (fresh.unused v k h there.here ((rw (sym end.same_files) q) ∙ sym p ∙ fresh.has))
distinct_step id k s t e f n valid step (inr (r, new)) (inr (w, again)) p q = same (sym new ∙ again)
  where
    same : enqueue id e ≡ enqueue k f → id ≡ k
    same h = cc

Fits-step :
    {d : Disk} {x : Effect} (k : RequestId) (t : QueueState) (f : Entry)
    → IsValid d
    → Permitted d x
    → Origin d x k t f
    → Fits t f
Fits-step k t f valid step (inl (s, e, at, out)) = out.fit (valid.fits k s e at)
Fits-step k t f valid step (inr (p, q)) = subst (λ y. Fits y f) (sym p) tt

placed_step :
    {d : Disk} {x : Effect} (k : RequestId)
    → IsValid d
    → Permitted d x
    → IsAbsent (apply x d) k ⊎ Stands (apply x d) k
placed_step k valid step = elim (valid.placed k) [
  | inl gone ↦ elim (Permitted-Arrived k step gone) [
    | inl still ↦ inl still
    | inr new ↦ inr (pending, new.0, new.2)
  ]
  | inr old ↦ let out = Permitted-Follows k old.0 old.1 step old.2 in inr (out.0, out.1, out.2)
]

pub Permitted-IsValid : {d : Disk} {x : Effect} → IsValid d → Permitted d x → IsValid (apply x d)
Permitted-IsValid {d} {x} valid step = record {
  placed = λ k. placed_step k valid step;
  numbered = λ k s e n at h.
      below (numbered_step k s e n valid step (origin k s e valid step at) h)
        (Permitted-next_sequence step);
  distinct = λ id k s t e f n at there.
      distinct_step id k s t e f n valid step (origin id s e valid step at)
        (origin k t f valid step there);
  fits = λ k s e at. Fits-step k s e valid step (origin k s e valid step at);
}
  where
    below :
        {n : ℕ}
        → n < d.next_sequence
        → d.next_sequence ≤ (apply x d).next_sequence
        → n < (apply x d).next_sequence
    below h k = omega arith

pub Run-IsValid : {d : Disk} {xs : List Effect} → IsValid d → Run d xs → IsValid (commit xs d)
unfolding commit
Run-IsValid valid done = valid
Run-IsValid valid (next step run) = Run-IsValid (Permitted-IsValid valid step) run
