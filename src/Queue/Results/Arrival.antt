-- ===== src/Queue/Results/Arrival.antt =====
-- Where a terminal transition leaves the request.
use agent_knowledge.Prelude.{
  ◌≡◌, sym, ◌∙◌, ap, inl, inr, Option, none, some, List, subst, ok, ok-injective, >>=-eq-ok, ◌≢◌,
}
use agent_knowledge.Core.Time.{OffsetDateTime}
use agent_knowledge.Core.ErrorCode.{ErrorCode}
use agent_knowledge.Queue.Disk.{QueueState, processing, Entry, Disk, Effect, commit}
use agent_knowledge.Queue.Lookup.Placement.{IsAt}
use agent_knowledge.Queue.Claims.{ClaimToken}
use agent_knowledge.Queue.Results.{
  result_at, ensure_result_absent, ensure_result_record, result_effects, transition_claimed,
}
use agent_knowledge.Queue.Results.Recovery.{renamed_at, reported_at, commit-append}
use agent_knowledge.Queue.Steps.Outcomes.{
  ensure_result_record-cases, Finished, transition_claimed-cases,
}

abbrev Arrives : Disk → ClaimToken → QueueState → Type 0
Arrives d token s = (e : Entry) × IsAt d token.request_id s e

-- The result is written where the request stands.
result_effects-IsAt :
    (token : ClaimToken) (code : Option ErrorCode) (now : OffsetDateTime) (d : Disk) (e : Entry)
    (ws : List Effect)
    → IsAt d token.request_id processing e
    → result_effects d token code now ≡ ok ws
    → Arrives (commit ws d) token processing
unfolding result_effects commit
result_effects-IsAt token none now d e ws at h =
    let (u, x, k) =
      >>=-eq-ok
        (ensure_result_absent (result_at (d.node processing token.request_id)) token.request_id
          processing)
        _ h in
    subst (λ ys. Arrives (commit ys d) token processing) (ok-injective k) (e, at)
result_effects-IsAt token (some code) now d e ws at h =
    elim (ensure_result_record-cases e token code processing now ws
      (ap (λ n. ensure_result_record (result_at n) token code processing now) (sym at.here) ∙ h)) [
        | inl q ↦
            subst (λ ys. Arrives (commit ys d) token processing) (sym q.1)
              (_, reported_at d token.request_id processing e _ at)
        | inr q ↦ subst (λ ys. Arrives (commit ys d) token processing) (sym q.1) (e, at)
      ]

Finished-Arrives :
    (token : ClaimToken) (code : Option ErrorCode) (terminal : QueueState) (now : OffsetDateTime)
    (d : Disk) (xs : List Effect)
    → processing ≢ terminal
    → Finished token code terminal now d xs
    → Arrives (commit xs d) token terminal
Finished-Arrives token code terminal now d xs n f =
    let (e, at) = result_effects-IsAt token code now d f.entry f.result_writes f.at f.allowed in
    (
      e,
      subst (λ g. IsAt g token.request_id terminal e)
          (sym (ap (λ ys. commit ys d) f.writes ∙ commit-append f.result_writes _ d))
          (renamed_at (commit f.result_writes d) token.request_id processing terminal e n at),
    )

-- A transition that succeeds leaves the request in its terminal state.
pub transition_claimed-IsAt :
    (token : ClaimToken) (terminal : QueueState) (code : Option ErrorCode) (now : OffsetDateTime)
    (d : Disk) (xs : List Effect) (u : Unit {0})
    → processing ≢ terminal
    → transition_claimed token terminal code now d ≡ ok (xs, u)
    → (e : Entry) × IsAt (commit xs d) token.request_id terminal e
unfolding commit
transition_claimed-IsAt token terminal code now d xs u n h =
    elim (transition_claimed-cases token terminal code now d xs u h) [
      | inl q ↦ subst (λ ys. Arrives (commit ys d) token terminal) (sym q.0) (q.1.0, q.1.1)
      | inr f ↦ Finished-Arrives token code terminal now d xs n f
    ]
