-- ===== src/Queue/Steps/Progress.antt =====
-- What a permitted write leaves of a request that the queue holds.
use agent_knowledge.Prelude.{
  ◌≤◌, ◌≡◌, refl, sym, ◌∙◌, ◌≢◌, inl, inr, Bool-cases, arith, ◌==◌, ==_iff, nat_eq, subst,
}
use agent_knowledge.Core.Id.{RequestId}
use agent_knowledge.Queue.Disk.{
  QueueState, state_eq, pending, processing, completed, failed, WorkerPhaseRecord,
  WorkerResultRecord, Sidecar, Entry, absent, directory, Disk, Effect, write_phase, write_result,
  put, apply,
}
use agent_knowledge.Queue.Lookup.Placement.{IsAt}
use agent_knowledge.Queue.Steps.{
  attempts, Permitted, number, accept, prepare, start, requeue, report, complete, fail,
}
use agent_knowledge.Queue.Steps.Moves.{
  put_request, keep, put-IsAt, move-IsAt, IsAt_unique, absent_not_IsAt,
}

-- A terminal state.
pub data IsFinal : QueueState → Type 0 where
  is_completed : IsFinal completed
  is_failed : IsFinal failed

-- The transitions of the life of a request.
pub data Transition : QueueState → QueueState → Type 0 where
  stays : {s : QueueState} → Transition s s
  starts : Transition pending processing
  requeues : Transition processing pending
  completes : Transition processing completed
  fails : Transition processing failed
  refuses : Transition pending failed

-- The result file fits the state.
abbrev pub Fits : QueueState → Entry → Type 0
Fits completed e = e.result ≡ Sidecar.missing
Fits failed e = (r : WorkerResultRecord) × (e.result ≡ Sidecar.holds r)
Fits _ e = Unit

-- What comes of a request in one step: the package is the same, the attempts do not decrease, and of a
-- terminal request nothing changes.
pub record Follows (s : QueueState) (e : Entry) (t : QueueState) (f : Entry) : Type 0 where
  pub transition : Transition s t
  pub same_digest : f.digest ≡ e.digest
  pub same_files : f.package_files ≡ e.package_files
  pub attempts_grow : attempts e ≤ attempts f
  pub fixed : IsFinal s → (t ≡ s) × (f ≡ e)
  pub fit : Fits s e → Fits t f

abbrev pub Successor : Disk → RequestId → QueueState → Entry → Type 0
Successor d id s e = (t : QueueState) × (f : Entry) × IsAt d id t f × Follows s e t f

unmoved :
    (d f : Disk) (k : RequestId) (s : QueueState) (e : Entry)
    → ((t : QueueState) → f.node t k ≡ d.node t k)
    → IsAt d k s e
    → Successor f k s e
unmoved d f k s e same h = (
  s,
  e,
  keep d f k s e same h,
  record {
    transition = stays;
    same_digest = refl;
    same_files = refl;
    attempts_grow = omega arith;
    fixed = λ q. (refl, refl);
    fit = λ q. q;
  },
)

-- Of two requests, or of one that is written, the successor is that of the write.
at_written :
    (d f : Disk) (id k : RequestId) (s : QueueState) (e : Entry) (x : QueueState) (g : Entry)
    → ((t : QueueState) → k ≢ id → f.node t k ≡ d.node t k)
    → IsAt d id s e
    → Successor f id s e
    → IsAt d k x g
    → Successor f k x g
at_written d f id k s e x g other here out h = elim (Bool-cases (k == id)) [
  | inl y ↦ same ((==_iff k id).0 y)
  | inr n ↦ unmoved d f k x g (λ t. other t (λ q. ground (arith, ==_iff k id))) h
]
  where
    same : k ≡ id → Successor f k x g
    same q =
        let (u, v) = IsAt_unique d k s x e g (subst (λ i. IsAt d i s e) (sym q) here) h in
        subst (λ y. Successor f k y g) u
          (subst (λ y. Successor f k s y) v (subst (λ i. Successor f i s e) (sym q) out))

pub phase_written :
    (d : Disk) (id : RequestId) (s : QueueState) (e : Entry) (r : WorkerPhaseRecord)
    → IsAt d id s e
    → apply (write_phase s id r) d ≡ put s id (directory (record e { phase = Sidecar.holds r })) d
unfolding apply
phase_written d id s e r h = rw h.here refl

pub result_written :
    (d : Disk) (id : RequestId) (s : QueueState) (e : Entry) (r : WorkerResultRecord)
    → IsAt d id s e
    → apply (write_result s id r) d ≡ put s id (directory (record e { result = Sidecar.holds r })) d
unfolding apply
result_written d id s e r h = rw h.here refl

-- A request that is rewritten in place, and every other one.
rewritten :
    (d : Disk) (id k : RequestId) (s : QueueState) (e f : Entry) (x : QueueState) (g : Entry)
    → IsAt d id s e
    → Follows s e s f
    → IsAt d k x g
    → Successor (put s id (directory f) d) k x g
rewritten d id k s e f x g here out h =
    at_written d (put s id (directory f) d) id k s e x g (λ t. put_request s t id k (directory f) d)
      here (s, f, put-IsAt d id s e f here, out) h

-- A request that is moved, and every other one.
moved :
    (d : Disk) (id k : RequestId) (s t : QueueState) (e : Entry) (x : QueueState) (g : Entry)
    → IsAt d id s e
    → Transition s t
    → s ≢ t
    → ¬ IsFinal s
    → Fits t e
    → IsAt d k x g
    → Successor (put s id absent (put t id (d.node s id) d)) k x g
moved d id k s t e x g here m n live fits h =
    at_written d (put s id absent (put t id (d.node s id) d)) id k s e x g
      (λ u q.
        put_request s u id k absent (put t id (d.node s id) d) q
        ∙ put_request t u id k (d.node s id) d q)
      here
      (
        t,
        e,
        move-IsAt d id s t e n here,
        record {
          transition = m;
          same_digest = refl;
          same_files = refl;
          attempts_grow = omega arith;
          fixed = λ q. absurd (live q);
          fit = λ q. fits;
        },
      )
      h

live_state : (s : QueueState) → s ≢ completed → s ≢ failed → ¬ IsFinal s
live_state s n m is_completed = n refl
live_state s n m is_failed = m refl

live_fails : (s : QueueState) → s ≢ completed → s ≢ failed → Transition s failed
live_fails pending n m = refuses
live_fails processing n m = fails
live_fails completed n m = absurd (n refl)
live_fails failed n m = absurd (m refl)

live-Fits : (s : QueueState) (e : Entry) → s ≢ completed → s ≢ failed → Fits s e
live-Fits pending e n m = tt
live-Fits processing e n m = tt
live-Fits completed e n m = absurd (n refl)
live-Fits failed e n m = absurd (m refl)

not_final_pending : ¬ IsFinal pending
not_final_pending = live_state pending (λ q. cc) (λ q. cc)

not_final_processing : ¬ IsFinal processing
not_final_processing = live_state processing (λ q. cc) (λ q. cc)

pub Permitted-Follows :
    {d : Disk} {x : Effect} (k : RequestId) (s : QueueState) (g : Entry)
    → Permitted d x
    → IsAt d k s g
    → Successor (apply x d) k s g
unfolding apply
Permitted-Follows {d} k s g (number h) at = unmoved d _ k s g (λ t. refl) at
Permitted-Follows {d} k s g (accept {id} {e} free _ _ _ _) at =
    unmoved d _ k s g
      (λ t.
        put_request pending t id k (directory e) d
          (λ q. ground (arith, absent_not_IsAt d id s g free)))
      at
Permitted-Follows {d} k s g (prepare {id} {e} {r} here more) at =
    subst (λ f. Successor f k s g) (sym (phase_written d id pending e r here))
      (rewritten d id k pending e (record e { phase = Sidecar.holds r }) s g here
        (record {
          transition = stays;
          same_digest = refl;
          same_files = refl;
          attempts_grow = omega arith;
          fixed = λ q. absurd (not_final_pending q);
          fit = λ q. tt;
        })
        at)
Permitted-Follows {d} k s g (start {id} {e} here _) at =
    moved d id k pending processing e s g here starts (λ q. cc) not_final_pending tt at
Permitted-Follows {d} k s g (requeue {id} {e} here) at =
    moved d id k processing pending e s g here requeues (λ q. cc) not_final_processing tt at
Permitted-Follows {d} k y g (report {id} {s} {e} {r} here n m) at =
    subst (λ f. Successor f k y g) (sym (result_written d id s e r here))
      (rewritten d id k s e (record e { result = Sidecar.holds r }) y g here
        (record {
          transition = stays;
          same_digest = refl;
          same_files = refl;
          attempts_grow = omega arith;
          fixed = λ q. absurd (live_state s n m q);
          fit = λ q. live-Fits s (record e { result = Sidecar.holds r }) n m;
        })
        at)
Permitted-Follows {d} k s g (complete {id} {e} here empty) at =
    moved d id k processing completed e s g here completes (λ q. cc) not_final_processing empty at
Permitted-Follows {d} k y g (fail {id} {s} {e} {r} here n m held) at =
    moved d id k s failed e y g here (live_fails s n m) m (live_state s n m) (r, held) at
