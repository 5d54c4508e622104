-- ===== src/Queue/Results/Recovery.antt =====
-- The terminal transitions after a crash: the same transition, done again, ends where it was to end.
use agent_knowledge.Prelude.{
  ◌≡◌, refl, sym, ◌∙◌, ap, ◌≢◌, true, false, Option, none, some, List, [], ◌∷◌, ◌++◌, arith, subst,
  ◌==◌, ==_iff, ==_self, nat_eq, list_eq, ok,
}
use agent_knowledge.Core.Time.{OffsetDateTime}
use agent_knowledge.Core.Id.{RequestId}
use agent_knowledge.Core.ErrorCode.{ErrorCode, code_eq}
use agent_knowledge.Queue.Disk.{
  QueueState, state_eq, processing, completed, WorkerResultRecord, missing, holds, Entry, directory,
  Disk, Effect, write_result, rename, apply, commit,
}
use agent_knowledge.Queue.Lookup.{find_existing_state}
use agent_knowledge.Queue.Lookup.Placement.{IsAt, find_existing_state_at}
use agent_knowledge.Queue.Claims.{ClaimToken, read_phase, check_phase_record, read_required_phase}
use agent_knowledge.Queue.Results.{
  result_record, matches_result, validate_claim_token, validate_result_record, ensure_result_absent,
  ensure_result_record, result_effects, validate_terminal_claim, finish_claimed, transition_claimed,
}
use agent_knowledge.Queue.Steps.Moves.{put-IsAt, move-IsAt}
use agent_knowledge.Queue.Steps.Progress.{result_written}
use agent_knowledge.Queue.Steps.Outcomes.{AtEnd, HoldsResult}

-- The token is that of the phase record, wherever the request stands.
pub validate_claim_token_moves :
    (e f : Entry) (token : ClaimToken) (s t : QueueState)
    → f.phase ≡ e.phase
    → validate_claim_token (directory e) token s ≡ ok tt
    → validate_claim_token (directory f) token t ≡ ok tt
unfolding validate_claim_token read_required_phase read_phase check_phase_record
validate_claim_token_moves e f token s t same h = ground arith

pub result_record_matches :
    (token : ClaimToken) (code : ErrorCode) (now : OffsetDateTime)
    → matches_result (result_record token.request_id token.batch_id code now) token code ≡ true
result_record_matches token code now = ground (arith, ==_self code)

-- A request that is processed is moved on.
transition_moves :
    (token : ClaimToken) (terminal : QueueState) (code : Option ErrorCode) (now : OffsetDateTime)
    (d : Disk) (e : Entry) (ws : List Effect)
    → IsAt d token.request_id processing e
    → (processing == terminal) ≡ false
    → validate_claim_token (directory e) token processing ≡ ok tt
    → result_effects d token code now ≡ ok ws
    → transition_claimed token terminal code now d
      ≡ ok (ws ++ (rename processing terminal token.request_id ∷ []), tt)
unfolding transition_claimed finish_claimed
transition_moves token terminal code now d e ws at other owned effects =
    rw (find_existing_state_at d token.request_id processing e at, other, at.here, owned, effects)
      refl

-- A request that is terminal is left.
transition_leaves :
    (token : ClaimToken) (terminal : QueueState) (code : Option ErrorCode) (now : OffsetDateTime)
    (d : Disk) (e : Entry)
    → IsAt d token.request_id terminal e
    → validate_terminal_claim d token terminal code ≡ ok tt
    → transition_claimed token terminal code now d ≡ ok ([], tt)
unfolding transition_claimed
transition_leaves token terminal code now d e at valid =
    rw (find_existing_state_at d token.request_id terminal e at, ==_self terminal, valid) refl

-- What a transition that is done again answers, and where it ends.
abbrev pub Ends : ClaimToken → QueueState → Option ErrorCode → OffsetDateTime → Disk → Type 0
Ends token terminal code now d =
    (ws : List Effect) × (transition_claimed token terminal code now d ≡ ok (ws, tt))
    × (find_existing_state (commit ws d) token.request_id ≡ ok (some terminal))

pub left-Ends :
    (token : ClaimToken) (terminal : QueueState) (code : Option ErrorCode) (now : OffsetDateTime)
    (d : Disk)
    → AtEnd token code terminal d
    → Ends token terminal code now d
unfolding commit
left-Ends token terminal code now d (e, at, valid) = (
  [],
  transition_leaves token terminal code now d e at valid,
  find_existing_state_at d token.request_id terminal e at,
)

pub renamed_at :
    (d : Disk) (id : RequestId) (s t : QueueState) (e : Entry)
    → s ≢ t
    → IsAt d id s e
    → IsAt (commit (rename s t id ∷ []) d) id t e
unfolding commit apply
renamed_at d id s t e n at = move-IsAt d id s t e n at

pub reported_at :
    (d : Disk) (id : RequestId) (s : QueueState) (e : Entry) (r : WorkerResultRecord)
    → IsAt d id s e
    → IsAt (commit (write_result s id r ∷ []) d) id s (record e { result = holds r })
unfolding commit
reported_at d id s e r at =
    subst (λ f. IsAt f id s (record e { result = holds r })) (sym (result_written d id s e r at))
      (put-IsAt d id s e _ at)

pub commit-append : (xs ys : List Effect) (d : Disk) → commit (xs ++ ys) d ≡ commit ys (commit xs d)
unfolding commit
commit-append [] ys d = refl
commit-append (x ∷ xs) ys d = commit-append xs ys (apply x d)

pub moves-Ends :
    (token : ClaimToken) (terminal : QueueState) (code : Option ErrorCode) (now : OffsetDateTime)
    (d : Disk) (e f : Entry) (ws : List Effect)
    → processing ≢ terminal
    → IsAt d token.request_id processing e
    → validate_claim_token (directory e) token processing ≡ ok tt
    → result_effects d token code now ≡ ok ws
    → IsAt (commit ws d) token.request_id processing f
    → Ends token terminal code now d
moves-Ends token terminal code now d e f ws n at owned effects there = (
  ws ++ (rename processing terminal token.request_id ∷ []),
  transition_moves token terminal code now d e ws at (ground (arith, ==_iff processing terminal))
      owned effects,
  ap (λ g. find_existing_state g token.request_id) (commit-append ws _ d)
      ∙ find_existing_state_at _ token.request_id terminal f
          (renamed_at (commit ws d) token.request_id processing terminal f n there),
)

-- After its last write, a transition is done.
pub renamed-Ends :
    (token : ClaimToken) (terminal : QueueState) (code : Option ErrorCode) (now : OffsetDateTime)
    (d : Disk) (e : Entry)
    → processing ≢ terminal
    → IsAt d token.request_id processing e
    → validate_claim_token (directory e) token processing ≡ ok tt
    → ((f : Disk)
        → f.node terminal token.request_id ≡ directory e
        → validate_claim_token (directory e) token terminal ≡ ok tt
        → validate_terminal_claim f token terminal code ≡ ok tt)
    → Ends token terminal code now (commit (rename processing terminal token.request_id ∷ []) d)
renamed-Ends token terminal code now d e n at owned valid =
    let there = renamed_at d token.request_id processing terminal e n at in
    left-Ends token terminal code now _ (
      e,
      there,
      valid _ there.here (validate_claim_token_moves e e token processing terminal refl owned),
    )

pub completed_valid :
    (token : ClaimToken) (e : Entry) (f : Disk)
    → e.result ≡ missing
    → f.node completed token.request_id ≡ directory e
    → validate_claim_token (directory e) token completed ≡ ok tt
    → validate_terminal_claim f token completed none ≡ ok tt
unfolding validate_terminal_claim ensure_result_absent
completed_valid token e f empty at owned = rw (at, owned, empty) refl

pub failed_valid :
    (token : ClaimToken) (code : ErrorCode) (e : Entry) (f : Disk)
    → HoldsResult e token code
    → f.node QueueState.failed token.request_id ≡ directory e
    → validate_claim_token (directory e) token QueueState.failed ≡ ok tt
    → validate_terminal_claim f token QueueState.failed (some code) ≡ ok tt
unfolding validate_terminal_claim validate_result_record
failed_valid token code e f (r, held, matching) at owned = rw (at, owned, held, matching) refl

-- The effects of the result, and where the request stands after them.
pub held_effects :
    (token : ClaimToken) (code : ErrorCode) (now : OffsetDateTime) (d : Disk) (e : Entry)
    → IsAt d token.request_id processing e
    → HoldsResult e token code
    → result_effects d token (some code) now ≡ ok []
unfolding result_effects ensure_result_record validate_result_record
held_effects token code now d e at (r, held, matching) = rw (at.here, held, matching) refl

pub missing_effects :
    (token : ClaimToken) (code : ErrorCode) (now : OffsetDateTime) (d : Disk) (e : Entry)
    → IsAt d token.request_id processing e
    → e.result ≡ missing
    → result_effects d token (some code) now
      ≡ ok (
          write_result processing token.request_id
            (result_record token.request_id token.batch_id code now)
          ∷ [])
unfolding result_effects ensure_result_record
missing_effects token code now d e at empty = rw (at.here, empty) refl

pub absent_effects :
    (token : ClaimToken) (now : OffsetDateTime) (d : Disk) (e : Entry)
    → IsAt d token.request_id processing e
    → e.result ≡ missing
    → result_effects d token none now ≡ ok []
unfolding result_effects ensure_result_absent
absent_effects token now d e at empty = rw (at.here, empty) refl
