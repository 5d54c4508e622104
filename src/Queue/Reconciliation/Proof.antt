-- ===== src/Queue/Reconciliation/Proof.antt =====
-- What the proof of a reconciliation is good for.
use mathlib.Core.List.{Permᴰ}
use mathlib.Core.List.Permᴰ
use agent_knowledge.Prelude.{
  ◌≡◌, refl, sym, ◌∙◌, ap, true, List, [], ◌∷◌, arith, subst, ==_iff, ==_self, nat_eq, list_eq, leb,
  Bool-cases, inl, inr, ok,
}
use agent_knowledge.Core.Time.{OffsetDateTime}
use agent_knowledge.Core.Id.{BatchId}
use agent_knowledge.Core.ErrorCode.{ErrorCode}
use agent_knowledge.Core.Revision.{Revision}
use agent_knowledge.Queue.Disk.{Disk}
use agent_knowledge.Queue.Claims.{ClaimToken}
use agent_knowledge.Queue.Session.{WorkerSession}
use agent_knowledge.Queue.Reconciliation.{
  ReconciledOutcome, outcome_eq, BatchReconciliation, token_of, insert_outcome, sort_outcomes,
  expected_outcomes, validates, reconcile_batch,
}
use agent_knowledge.Queue.Reconciliation.Placement.{reconcile_batch-done}

insert_outcome-Permᴰ :
    (o : ReconciledOutcome) (xs : List ReconciledOutcome) → Permᴰ (insert_outcome o xs) (o ∷ xs)
unfolding insert_outcome
insert_outcome-Permᴰ o [] = Permᴰ.refl (o ∷ [])
insert_outcome-Permᴰ o (x ∷ xs) =
    elim (Bool-cases (leb (token_of o).request_id (token_of x).request_id)) [
      | inl y ↦ rw y (Permᴰ.refl (o ∷ (x ∷ xs)))
      | inr n ↦
          rw n (Permᴰ.trans (Permᴰ.cons refl (insert_outcome-Permᴰ o xs)) (Permᴰ.swap refl refl))
    ]

sort_outcomes-Permᴰ : (xs : List ReconciledOutcome) → Permᴰ (sort_outcomes xs) xs
unfolding sort_outcomes
sort_outcomes-Permᴰ [] = Permᴰ.nil
sort_outcomes-Permᴰ (x ∷ xs) =
    Permᴰ.trans (insert_outcome-Permᴰ x (sort_outcomes xs))
      (Permᴰ.cons refl (sort_outcomes-Permᴰ xs))

-- The proof of a reconciliation validates the outcomes that were reconciled.
validates_reconciled :
    (identity : Revision) (batch : BatchId) (successful : List ClaimToken)
    (failures : List (ClaimToken × ErrorCode))
    → validates
        (record {
          queue_identity = identity;
          batch_id = batch;
          outcomes = sort_outcomes (expected_outcomes successful failures);
        })
        identity
        batch
        successful
        failures
      ≡ true
unfolding validates
validates_reconciled identity batch successful failures =
    rw (==_self identity, ==_self batch)
      (==_self (sort_outcomes (expected_outcomes successful failures)))

validates_lem :
    (r : BatchReconciliation) (identity : Revision) (batch : BatchId) (successful : List ClaimToken)
    (failures : List (ClaimToken × ErrorCode))
    → validates r identity batch successful failures ≡ true
    → (r.queue_identity ≡ identity)
      × (r.batch_id ≡ batch)
      × (sort_outcomes (expected_outcomes successful failures) ≡ r.outcomes)
unfolding validates
validates_lem r identity batch successful failures h = ground (
  arith,
  ==_iff r.queue_identity identity,
  ==_iff r.batch_id batch,
  ==_iff (sort_outcomes (expected_outcomes successful failures)) r.outcomes,
)

-- The proof of a reconciliation validates what was reconciled, and whatever else it validates is of the
-- same queue and batch, and the same outcomes in some order.
pub reconcile_batch-validates :
    (identity other : Revision) (batch later : BatchId) (successful good : List ClaimToken)
    (failures bad : List (ClaimToken × ErrorCode)) (now : OffsetDateTime) (s : WorkerSession)
    (d f : Disk) (r : BatchReconciliation)
    → reconcile_batch identity batch successful failures now s d ≡ (f, ok r)
    → validates r other later good bad ≡ true
    → (validates r identity batch successful failures ≡ true)
      × (identity ≡ other)
      × (batch ≡ later)
      × Permᴰ (expected_outcomes good bad) (expected_outcomes successful failures)
reconcile_batch-validates identity other batch later successful good failures bad now s d f r h v =
    let (x, y, z) = reconcile_batch-done identity batch successful failures now s d f r h in
    let (a, b, c) = validates_lem r other later good bad v in
    (
      subst (λ p. validates p identity batch successful failures ≡ true) (sym z)
          (validates_reconciled identity batch successful failures),
      ap (λ p. p.queue_identity) (sym z) ∙ a,
      ap (λ p. p.batch_id) (sym z) ∙ b,
      Permᴰ.trans
          (Permᴰ.trans (Permᴰ.symm (sort_outcomes-Permᴰ (expected_outcomes good bad))) (
            subst (λ os. Permᴰ (sort_outcomes (expected_outcomes good bad)) os)
              (c ∙ ap (λ p. p.outcomes) z) (Permᴰ.refl _)))
          (sort_outcomes-Permᴰ (expected_outcomes successful failures)),
    )
