-- ===== src/Queue/Batch/Validated.antt =====
-- The claims of a batch are valid on the disk that the call leaves.
use agent_knowledge.Prelude.{
  ◌≡◌, refl, sym, ◌∙◌, ap, nat_eq, List, [], ◌∷◌, All, arith, subst, Result, ok, err,
}
use agent_knowledge.Core.Time.{OffsetDateTime}
use agent_knowledge.Core.Id.{RequestId, BatchId}
use agent_knowledge.Queue.Disk.{processing, Package, Entry, Disk, Effect, commit}
use agent_knowledge.Queue.Failures.{WorkerQueueError}
use agent_knowledge.Queue.Lookup.Placement.{IsAt}
use agent_knowledge.Queue.Claims.{ClaimedPackage, claim_prepared, validate_claimed}
use agent_knowledge.Queue.Claims.Ownership.{claim_prepared-Claimed, claim_prepared-validate_claimed}
use agent_knowledge.Queue.Steps.Moves.{keep}
use agent_knowledge.Queue.Batch.Calls.{cons_claim, claim_all}
use agent_knowledge.Queue.Batch.Frames.{
  Unchanged, validate_claimed-Unchanged, claim_prepared-Unchanged,
}

abbrev pub Claims : Type 0
Claims = Disk × Result WorkerQueueError (List ClaimedPackage)

cons_claim-eq-ok :
    (c : ClaimedPackage) (x : Claims) (f : Disk) (cs : List ClaimedPackage)
    → cons_claim c x ≡ (f, ok cs)
    → (rest : List ClaimedPackage) × (x ≡ (f, ok rest)) × (cs ≡ c ∷ rest)
cons_claim-eq-ok c (g, ok rest) f cs h = (rest, ground arith, ground arith)
cons_claim-eq-ok c (g, err e) f cs h = absurd (clash (ap (λ q. q.1) h))
  where
    clash : ◌≡◌ {A = Result WorkerQueueError (List ClaimedPackage)} (err e) (ok cs) → ⊥
    clash q = cc

-- What follows a claim in the loop.
module _ (batch : BatchId) (now : OffsetDateTime) where
  record Continues (d f : Disk) (p : RequestId × Package) (ps : List (RequestId × Package))
      (cs : List ClaimedPackage) : Type 0 where
    writes : List Effect
    claim : ClaimedPackage
    later : List ClaimedPackage
    claimed : claim_prepared p.0 batch p.1 now d ≡ ok (writes, claim)
    rest : claim_all batch now (commit writes d) ps ≡ (f, ok later)
    all : cs ≡ claim ∷ later

  claim_all-Continues :
      (d f : Disk) (p : RequestId × Package) (ps : List (RequestId × Package))
      (cs : List ClaimedPackage)
      → claim_all batch now d (p ∷ ps) ≡ (f, ok cs)
      → Continues d f p ps cs
  unfolding claim_all
  claim_all-Continues d f p ps cs h = next (claim_prepared p.0 batch p.1 now d) refl h
    where
      next :
          (r : Result WorkerQueueError (List Effect × ClaimedPackage))
          → claim_prepared p.0 batch p.1 now d ≡ r
          → ◌≡◌ {A = Claims}
              (elim r [
                | ok (xs, c) ↦ cons_claim c (claim_all batch now (commit xs d) ps)
                | err e ↦ (d, err e)
              ])
              (f, ok cs)
          → Continues d f p ps cs
      next (err e) q k = absurd (clash (ap (λ r. r.1) k))
        where
          clash : ◌≡◌ {A = Result WorkerQueueError (List ClaimedPackage)} (err e) (ok cs) → ⊥
          clash z = cc
      next (ok (xs, c)) q k =
          let (rest, x, y) = cons_claim-eq-ok c (claim_all batch now (commit xs d) ps) f cs k in
          record { writes = xs; claim = c; later = rest; claimed = q; rest = x; all = y }

  -- A request that is claimed is left alone by the claims that follow.
  claim_all-Unchanged :
      (d f : Disk) (ps : List (RequestId × Package)) (cs : List ClaimedPackage) (k : RequestId)
      (e : Entry)
      → IsAt d k processing e
      → claim_all batch now d ps ≡ (f, ok cs)
      → Unchanged d f k
  unfolding claim_all
  claim_all-Unchanged d f [] cs k e at h = λ s. ap (λ q. q.0.node s k) (sym h)
  claim_all-Unchanged d f (p ∷ ps) cs k e at h =
      let c = claim_all-Continues d f p ps cs h in
      let first = claim_prepared-Unchanged p.0 batch p.1 now d c.writes c.claim k e at c.claimed in
      let more =
        claim_all-Unchanged (commit c.writes d) f ps c.later k e
          (keep d (commit c.writes d) k processing e first at) c.rest in
      λ s. more s ∙ first s

  pub claim_all-validate_claimed :
      (d f : Disk) (ps : List (RequestId × Package)) (cs : List ClaimedPackage)
      → claim_all batch now d ps ≡ (f, ok cs)
      → All (λ c. (validate_claimed c f ≡ ok tt) × (c.token.batch_id ≡ batch)) cs
  unfolding claim_all
  claim_all-validate_claimed d f [] cs h =
      subst (λ q. All (λ c. (validate_claimed c f ≡ ok tt) × (c.token.batch_id ≡ batch)) q)
        (none_left (ap (λ q. q.1) h)) tt
    where
      none_left : ◌≡◌ {A = Result WorkerQueueError (List ClaimedPackage)} (ok []) (ok cs) → [] ≡ cs
      none_left q = cc
  claim_all-validate_claimed d f (p ∷ ps) cs h =
      let c = claim_all-Continues d f p ps cs h in
      let k = claim_prepared-Claimed p.0 batch p.1 now d c.writes c.claim c.claimed in
      let valid = claim_prepared-validate_claimed p.0 batch p.1 now d c.writes c.claim c.claimed in
      let same = claim_all-Unchanged (commit c.writes d) f ps c.later p.0 _ k.at c.rest in
      subst (λ q. All (λ c. (validate_claimed c f ≡ ok tt) × (c.token.batch_id ≡ batch)) q)
        (sym c.all)
        (
          (
            validate_claimed-Unchanged c.claim (commit c.writes d) f
                (subst (λ i. Unchanged (commit c.writes d) f i)
                  (ap (λ q. q.token.request_id) (sym k.token)) same)
                valid,
            ap (λ q. q.token.batch_id) k.token,
          ),
          claim_all-validate_claimed (commit c.writes d) f ps c.later c.rest,
        )
