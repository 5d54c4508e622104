-- ===== src/Repository/Apply/Plan/Budget.antt =====
-- The bytes of a plan.
use agent_knowledge.Prelude.{
  ℕ, ◌+◌, ◌≤◌, ◌≡◌, refl, sym, ap, false, ◌∙◌, List, [], ◌∷◌, ◌++◌, arith, ok, >>=-eq-ok,
  reject-eq-ok, ok-injective, length, subst,
}
use agent_knowledge.Core.Time.{is_before}
use agent_knowledge.Core.Request.{
  Operation, create_document, update_document, move_document, archive_document, add_attachment,
}
use agent_knowledge.Repository.Index.{Crates, ContentPolicy, ContentIndex}
use agent_knowledge.Repository.Apply.{
  Files, ValidatedPackage, PlannedMutation, write_new, replace, move,
}
use agent_knowledge.Repository.Apply.Plan.{
  Setting, Planning, empty_planning, operation_time_of, plan_operation, plan_operations, build_plan,
}
use agent_knowledge.Repository.Apply.Plan.Updates.{plan_update_sound}
use agent_knowledge.Repository.Apply.Plan.Moves.{plan_move_sound, plan_archive_sound}
use agent_knowledge.Repository.Apply.Plan.Additions.{plan_create_sound, plan_attachment_sound}

-- How many bytes the writes of a plan hold.
abbrev pub written : List PlannedMutation → ℕ
written [] = 0
written (write_new path bytes ∷ ms) = length bytes + written ms
written (replace path bytes ∷ ms) = length bytes + written ms
written (move source destination ∷ ms) = written ms

written-append : (ms ns : List PlannedMutation) → written (ms ++ ns) ≡ written ms + written ns
written-append [] ns = omega arith
written-append (write_new path bytes ∷ ms) ns = omega (arith, written-append ms ns)
written-append (replace path bytes ∷ ms) ns = omega (arith, written-append ms ns)
written-append (move source destination ∷ ms) ns = written-append ms ns

module _ (s : Setting) where
  abbrev pub IsBudgeted : Planning → Type 0
  IsBudgeted p = (written p.plan ≡ p.planned_bytes) × (p.planned_bytes ≤ s.maximum_planned_bytes)

  grows :
      (p p' : Planning) (ms : List PlannedMutation)
      → IsBudgeted p
      → p'.plan ≡ p.plan ++ ms
      → p'.planned_bytes ≡ p.planned_bytes + written ms
      → p'.planned_bytes ≤ s.maximum_planned_bytes
      → IsBudgeted p'
  grows p p' ms b plan spent fits =
      let same = ap written plan ∙ written-append p.plan ms in
      (omega (arith, b.0, same, spent), fits)

  plan_operation-IsBudgeted :
      (op : Operation) (p p' : Planning)
      → IsBudgeted p
      → plan_operation s op p ≡ ok p'
      → IsBudgeted p'
  unfolding plan_operation
  plan_operation-IsBudgeted (create_document id content) p p' b h =
      let c = plan_create_sound s id p p' content h in
      grows p p' _ b c.planned (omega (arith, c.spent)) c.fits
  plan_operation-IsBudgeted (update_document id expected content) p p' b h =
      let u = plan_update_sound s id expected content p p' h in
      grows p p' _ b u.planned (omega (arith, u.spent)) u.fits
  plan_operation-IsBudgeted (move_document id expected project t) p p' b h =
      let m = plan_move_sound s id expected p p' project t h in
      grows p p' _ b m.planned (omega (arith, m.spent)) (omega (arith, m.spent, b.1))
  plan_operation-IsBudgeted (archive_document id expected) p p' b h =
      let a = plan_archive_sound s id expected p p' h in
      grows p p' _ b a.planned (omega (arith, a.spent)) a.fits
  plan_operation-IsBudgeted (add_attachment id source name) p p' b h =
      let a = plan_attachment_sound s id p p' source name h in
      grows p p' _ b a.planned (omega (arith, a.spent)) a.fits

  plan_operations-IsBudgeted :
      (ops : List Operation) (p p' : Planning)
      → IsBudgeted p
      → plan_operations s ops p ≡ ok p'
      → IsBudgeted p'
  unfolding plan_operations
  plan_operations-IsBudgeted [] p p' b h = subst IsBudgeted (ok-injective h) b
  plan_operations-IsBudgeted (op ∷ ops) p p' b h =
      let (q, e, h1) = >>=-eq-ok (plan_operation s op p) _ h in
      plan_operations-IsBudgeted ops q p' (plan_operation-IsBudgeted op p q b e) h1

-- The writes of a plan that is built hold at most the allowed number of bytes, whatever the
-- operations; and the request was not created after its operation time.
pub build_plan-bounded :
    (crates : Crates) (files : Files) (claimed : ValidatedPackage) (contents : ContentIndex)
    (policy : ContentPolicy) (maximum : ℕ) (plan : List PlannedMutation)
    → build_plan crates files claimed contents policy maximum ≡ ok plan
    → (written plan ≤ maximum)
      × (is_before (operation_time_of claimed) claimed.request.created_at ≡ false)
unfolding build_plan
build_plan-bounded crates files claimed contents policy maximum plan h =
    let s : Setting = record {
      crates = crates;
      files = files;
      claimed = claimed;
      contents = contents;
      policy = policy;
      maximum_planned_bytes = maximum;
      operation_time = operation_time_of claimed;
    } in
    let (order, h1) =
      reject-eq-ok (is_before (operation_time_of claimed) claimed.request.created_at) _ _ h in
    let (p, e, h2) = >>=-eq-ok (plan_operations s claimed.request.operations empty_planning) _ h1 in
    let (count, fits) =
      plan_operations-IsBudgeted s claimed.request.operations empty_planning p (refl, omega arith)
        e in
    (rw (sym (ok-injective h2)) (omega (arith, count, fits)), order)
