-- ===== src/Queue/Steps/Operations.antt =====
-- The operations of the queue take permitted steps.
use agent_knowledge.Prelude.{
  ℕ, ◌+◌, ◌^◌, ◌<◌, ◌≡◌, refl, sym, ◌∙◌, ap, ◌≢◌, inl, inr, Bool-cases, not, Option, none, some,
  List, [], ◌∷◌, arith, subst, ◌==◌, ==_iff, nat_eq, list_eq, ok, ◌>>=◌, ok_or, map_err, >>=-eq-ok,
  reject-eq-ok, ok_or-eq-ok, map_err-eq-ok, ok-injective, Text, text,
}
use agent_knowledge.Core.Time.{OffsetDateTime}
use agent_knowledge.Core.Id.{RequestId, BatchId}
use agent_knowledge.Queue.Disk.{
  QueueState, state_eq, pending, processing, PackageDigest, Package, WorkerPhaseRecord, holds,
  Entry, Node, directory, Disk, Effect, write_phase, rename, enqueue, write_sequence, apply,
}
use agent_knowledge.Queue.Failures.{queue, request_not_found}
use agent_knowledge.Queue.Lookup.{read_stored_digest, find_existing}
use agent_knowledge.Queue.Lookup.Placement.{IsAt, IsAbsent, find_existing_sound, find_existing-none}
use agent_knowledge.Queue.Acceptance.{
  accept, accept_new, accept_existing, accepted_entry, allocate_sequence, EnqueueOutcome,
}
use agent_knowledge.Queue.Claims.{
  ClaimToken, ClaimedPackage, phase_at, read_phase, check_phase_record, next_attempt,
  check_destination, ensure_pending, claim_record, claim_prepared, prepare_claim, claim,
  read_required_phase, is_owned, requeue_claimed,
}
use agent_knowledge.Queue.Steps.{attempts, sequence_of, Permitted, Run, done, next}
use agent_knowledge.Queue.Steps.Moves.{put-IsAt}
use agent_knowledge.Queue.Steps.Progress.{phase_written}
use agent_knowledge.Queue.Steps.Validity.{IsValid}

-- The attempt that follows the one of the phase file.
pub next_attempt_lem :
    (e : Entry) (id : RequestId) (s : QueueState) (n : ℕ)
    → next_attempt e.phase id s ≡ ok n
    → (n ≡ attempts e + 1) × (n < 2 ^ 32)
unfolding next_attempt read_phase check_phase_record
next_attempt_lem e id s n h = ground arith

pub ensure_pending_lem :
    (d : Disk) (id : RequestId) (g : PackageDigest)
    → ensure_pending d id ≡ ok g
    → (e : Entry) × IsAt d id pending e × (read_stored_digest e.digest id pending ≡ ok g)
unfolding ensure_pending
ensure_pending_lem d id g h =
    let (a, x, h1) = >>=-eq-ok (map_err queue (find_existing d id)) _ h in
    let (b, y, h2) = >>=-eq-ok (ok_or a (request_not_found id)) _ h1 in
    let (n, h3) = reject-eq-ok (not (b.0 == pending)) _ _ h2 in
    let found = map_err-eq-ok queue _ x ∙ ap ok (ok_or-eq-ok a _ y) in
    let (e, at, digest) = find_existing_sound d id b.0 b.1 found in
    let q : b.0 ≡ pending = ground (arith, ==_iff b.0 pending) in
    (
      e,
      subst (λ s. IsAt d id s e) q at,
      subst (λ s. read_stored_digest e.digest id s ≡ ok g) q (digest ∙ ap ok (ok-injective h3)),
    )

pub claim_prepared-Run :
    (id : RequestId) (batch : BatchId) (p : Package) (now : OffsetDateTime) (d : Disk)
    (xs : List Effect) (c : ClaimedPackage)
    → claim_prepared id batch p now d ≡ ok (xs, c)
    → Run d xs
unfolding claim_prepared
claim_prepared-Run id batch p now d xs c h =
    let (g, x, h1) = >>=-eq-ok (ensure_pending d id) _ h in
    let (e, at, digest) = ensure_pending_lem d id g x in
    let (m, h2) = reject-eq-ok (not (g == p.digest)) _ _ h1 in
    let (n, y, h3) = >>=-eq-ok (next_attempt (phase_at (d.node pending id)) id pending) _ h2 in
    let (u, z, h4) =
      >>=-eq-ok
        (check_destination (phase_at (d.node pending id)) id
          (text "phase metadata is not a regular file"))
        _ h3 in
    let more =
      next_attempt_lem e id pending n
        (ap (λ k. next_attempt (phase_at k) id pending) (sym at.here) ∙ y) in
    subst (λ ys. Run d ys) (ap (λ q. q.0) (ok-injective h4)) (claimed e at n more.0)
  where
    claimed :
        (e : Entry)
        → IsAt d id pending e
        → (n : ℕ) → n ≡ attempts e + 1
        → Run d (
            write_phase pending id (claim_record id batch n now)
            ∷ (rename pending processing id ∷ []))
    claimed e at n q = next (Permitted.prepare at (omega arith)) (
        next
          (Permitted.start {e = record e { phase = holds (claim_record id batch n now) }}
            (subst
              (λ f. IsAt f id pending (record e { phase = holds (claim_record id batch n now) }))
              (sym (phase_written d id pending e _ at)) (put-IsAt d id pending e _ at))
            refl)
          done)

pub claim-Run :
    (id : RequestId) (batch : BatchId) (now : OffsetDateTime) (d : Disk) (xs : List Effect)
    (c : ClaimedPackage)
    → claim id batch now d ≡ ok (xs, c)
    → Run d xs
unfolding claim
claim-Run id batch now d xs c h =
    let (g, x, h1) = >>=-eq-ok (ensure_pending d id) _ h in
    let (p, y, h2) = >>=-eq-ok (prepare_claim d id) _ h1 in
    claim_prepared-Run id batch p now d xs c h2

pub read_required_phase_lem :
    (e : Entry) (id : RequestId) (s : QueueState) (r : WorkerPhaseRecord)
    → read_required_phase e.phase id s ≡ ok r
    → e.phase ≡ holds r
unfolding read_required_phase read_phase check_phase_record
read_required_phase_lem e id s r h = ground arith

pub requeue_claimed-Run :
    (token : ClaimToken) (d : Disk) (xs : List Effect) (u : Unit {0})
    → requeue_claimed token d ≡ ok (xs, u)
    → Run d xs
unfolding requeue_claimed
requeue_claimed-Run token d xs u h =
    let id = token.request_id in
    let (a, x, h1) = >>=-eq-ok (map_err queue (find_existing d id)) _ h in
    let (b, y, h2) = >>=-eq-ok (ok_or a (request_not_found id)) _ h1 in
    let (n, h3) = reject-eq-ok (not (b.0 == processing)) _ _ h2 in
    let (r, z, h4) =
      >>=-eq-ok (read_required_phase (phase_at (d.node processing id)) id processing) _ h3 in
    let (m, h5) = reject-eq-ok (not (is_owned r token)) _ _ h4 in
    let found = map_err-eq-ok queue _ x ∙ ap ok (ok_or-eq-ok a _ y) in
    let there = find_existing_sound d id b.0 b.1 found in
    subst (λ ys. Run d ys) (ap (λ q. q.0) (ok-injective h5))
      (next
        (Permitted.requeue
          (subst (λ s. IsAt d id s there.0) (ground (arith, ==_iff b.0 processing)) there.1))
        done)

node-IsAt :
    (d : Disk) (id : RequestId) (s : QueueState) (e : Entry)
    → IsValid d
    → d.node s id ≡ directory e
    → IsAt d id s e
node-IsAt d id s e valid h = elim (valid.placed id) [
  | inl gone ↦ absurd (clash (gone s))
  | inr there ↦ elim (Bool-cases (s == there.0)) [
    | inl y ↦ same there.0 there.1 there.2 ((==_iff s there.0).0 y)
    | inr n ↦ absurd (clash (there.2.only s (λ q. ground (arith, ==_iff s there.0))))
  ]
]
  where
    clash : d.node s id ≡ Node.absent → ⊥
    clash q = ground arith

    same : (t : QueueState) (f : Entry) → IsAt d id t f → s ≡ t → IsAt d id s e
    same t f at q =
        subst (λ u. IsAt d id u e) (sym q)
          (subst (λ g. IsAt d id t g) (ground (arith, at.here, h, q)) at)

allocate_sequence_lem :
    (d : Disk) (n m : ℕ)
    → allocate_sequence d ≡ ok (n, m)
    → (n ≡ d.next_sequence) × (m ≡ d.next_sequence + 1) × (d.next_sequence + 1 < 2 ^ 64)
unfolding allocate_sequence
allocate_sequence_lem d n m h = ground arith

accept_new-Run :
    (p : Package) (now : OffsetDateTime) (client : Option Text) (d : Disk) (xs : List Effect)
    (o : EnqueueOutcome)
    → IsValid d
    → IsAbsent d p.request_id
    → accept_new d p now client ≡ ok (xs, o)
    → Run d xs
unfolding accept_new apply
accept_new-Run p now client d xs o valid gone h =
    let (a, x, h1) = >>=-eq-ok (allocate_sequence d) _ h in
    let (n, m, l) = allocate_sequence_lem d a.0 a.1 x in
    subst (λ ys. Run d ys)
      (ap
          (λ k.
            write_sequence (d.next_sequence + 1)
            ∷ (enqueue p.request_id (accepted_entry p k now client) ∷ []))
          (sym n)
        ∙ ap (λ k. write_sequence k ∷ (enqueue p.request_id (accepted_entry p a.0 now client) ∷ []))
            (sym m)
        ∙ ap (λ q. q.0) (ok-injective h1))
      (next (Permitted.number l) (next (Permitted.accept gone refl refl (omega arith) unused) done))
  where
    unused :
        (s : QueueState) (id : RequestId) (e : Entry)
        → d.node s id ≡ directory e
        → sequence_of e ≢ some d.next_sequence
    unused s id e at q =
        let less = valid.numbered id s e d.next_sequence (node-IsAt d id s e valid at) q in
        omega arith

pub accept-Run :
    (p : Package) (now : OffsetDateTime) (client : Option Text) (d : Disk) (xs : List Effect)
    (o : EnqueueOutcome)
    → IsValid d
    → accept p now client d ≡ ok (xs, o)
    → Run d xs
unfolding accept
accept-Run p now client d xs o valid h =
    let (a, x, h1) = >>=-eq-ok (find_existing d p.request_id) _ h in found a x h1
  where
    found :
        (a : Option (QueueState × PackageDigest))
        → find_existing d p.request_id ≡ ok a
        → elim a [
          | some b ↦ accept_existing d p b.0 >>= λ outcome. ok ([], outcome)
          | none ↦ accept_new d p now client
        ]
          ≡ ok (xs, o)
        → Run d xs
    found none x q =
        accept_new-Run p now client d xs o valid (find_existing-none d p.request_id x) q
    found (some b) x q =
        let (y, z, k) = >>=-eq-ok (accept_existing d p b.0) _ q in
        subst (λ ys. Run d ys) (ap (λ q. q.0) (ok-injective k)) done
