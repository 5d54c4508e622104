-- ===== src/Queue/Batch/Frames.antt =====
-- A claim leaves every other request alone.
use mathlib.Core.Path.{fun_ext}
use agent_knowledge.Prelude.{◌≡◌, sym, ◌∙◌, ap, ◌≢◌, nat_eq, List, [], ◌∷◌, subst, ok}
use agent_knowledge.Core.Time.{OffsetDateTime}
use agent_knowledge.Core.Id.{RequestId, BatchId}
use agent_knowledge.Queue.Disk.{
  QueueState, pending, processing, Package, WorkerPhaseRecord, Sidecar, Entry, absent, change, Disk,
  Effect, write_phase, rename, put, apply, commit,
}
use agent_knowledge.Queue.Lookup.{find_existing}
use agent_knowledge.Queue.Lookup.Placement.{IsAt}
use agent_knowledge.Queue.Claims.{ClaimedPackage, claim_prepared, validate_claimed}
use agent_knowledge.Queue.Claims.Ownership.{claim_prepared-Claimed}
use agent_knowledge.Queue.Steps.Moves.{put_request, IsAt_unique}

-- The directories of a request are the same.
abbrev pub Unchanged : Disk → Disk → RequestId → Type 0
Unchanged d f id = (s : QueueState) → f.node s id ≡ d.node s id

find_existing-Unchanged :
    (d f : Disk) (id : RequestId) → Unchanged d f id → find_existing f id ≡ find_existing d id
unfolding find_existing
find_existing-Unchanged d f id h =
    ap (λ n. find_existing (record d { node = λ s k. n s }) id) (fun_ext h)

-- What a claim is checked against is the request alone.
pub validate_claimed-Unchanged :
    (c : ClaimedPackage) (d f : Disk)
    → Unchanged d f c.token.request_id
    → validate_claimed c d ≡ ok tt
    → validate_claimed c f ≡ ok tt
unfolding validate_claimed
validate_claimed-Unchanged c d f h v =
    rw (find_existing-Unchanged d f c.token.request_id h, h processing) v

claiming-Unchanged :
    (d : Disk) (id k : RequestId) (r : WorkerPhaseRecord)
    → k ≢ id
    → Unchanged d (commit (write_phase pending id r ∷ (rename pending processing id ∷ [])) d) k
unfolding commit apply
claiming-Unchanged d id k r n s =
    let node = change (λ e. record e { phase = Sidecar.holds r }) (d.node pending id) in
    let written = put pending id node d in
    put_request pending s id k absent (put processing id (written.node pending id) written) n
    ∙ (put_request processing s id k (written.node pending id) written n
        ∙ put_request pending s id k node d n)

-- A claim leaves a request alone that is claimed already.
pub claim_prepared-Unchanged :
    (id : RequestId) (batch : BatchId) (p : Package) (now : OffsetDateTime) (d : Disk)
    (xs : List Effect) (c : ClaimedPackage) (k : RequestId) (e : Entry)
    → IsAt d k processing e
    → claim_prepared id batch p now d ≡ ok (xs, c)
    → Unchanged d (commit xs d) k
claim_prepared-Unchanged id batch p now d xs c k e at h =
    let q = claim_prepared-Claimed id batch p now d xs c h in
    subst (λ ys. Unchanged d (commit ys d) k) (sym q.writes)
      (claiming-Unchanged d id k q.record_held
        (λ same. other q.entry (subst (λ i. IsAt d i pending q.entry) (sym same) q.was)))
  where
    other : (g : Entry) → IsAt d k pending g → ⊥
    other g there = clash (IsAt_unique d k pending processing g e there at).0
      where
        clash : pending ≡ processing → ⊥
        clash r = cc
