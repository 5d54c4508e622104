-- ===== src/Queue/Steps/Outcomes.antt =====
-- The terminal transitions take permitted steps.
use agent_knowledge.Prelude.{
  ◌≡◌, refl, sym, ◌∙◌, ap, ◌≢◌, ◌⊎◌, inl, inr, Bool, true, false, not, Option, none, some, List, [],
  ◌∷◌, ◌++◌, arith, subst, ◌==◌, ==_iff, nat_eq, if◌then◌else◌, ok, ◌>>◌, reject, ok_or, >>=-eq-ok,
  reject-eq-ok, ok_or-eq-ok, ok-injective, text,
}
use agent_knowledge.Core.Time.{OffsetDateTime}
use agent_knowledge.Core.Id.{RequestId, BatchId}
use agent_knowledge.Core.ErrorCode.{ErrorCode}
use agent_knowledge.Queue.Disk.{
  QueueState, state_eq, pending, processing, completed, WorkerResultRecord, Sidecar, missing,
  failing, irregular, unreadable, oversized, malformed, holds, Entry, Disk, Effect, write_result,
  rename,
}
use agent_knowledge.Queue.Failures.{request_not_found}
use agent_knowledge.Queue.Lookup.{find_existing_state}
use agent_knowledge.Queue.Lookup.Placement.{IsAt, find_existing_state_sound}
use agent_knowledge.Queue.Claims.{ClaimToken, check_destination}
use agent_knowledge.Queue.Results.{
  result_at, result_record, matches_result, validate_claim_token, validate_result_record,
  ensure_result_absent, ensure_result_record, result_effects, validate_terminal_claim,
  finish_claimed, transition_claimed, complete_claimed, fail_claimed, fail_pending,
}
use agent_knowledge.Queue.Steps.{Permitted, Run, done, next}
use agent_knowledge.Queue.Steps.Moves.{put-IsAt}
use agent_knowledge.Queue.Steps.Progress.{result_written}

-- The result that is there is the one that is to be reported.
abbrev pub HoldsResult : Entry → ClaimToken → ErrorCode → Type 0
HoldsResult e token code =
    (r : WorkerResultRecord) × (e.result ≡ holds r) × (matches_result r token code ≡ true)

-- A result is written, or the one that is there matches.
pub ensure_result_record-cases :
    (e : Entry) (token : ClaimToken) (code : ErrorCode) (s : QueueState) (now : OffsetDateTime)
    (xs : List Effect)
    → ensure_result_record e.result token code s now ≡ ok xs
    → ((e.result ≡ missing)
        × (xs
            ≡ write_result s token.request_id
                (result_record token.request_id token.batch_id code now)
              ∷ []))
      ⊎ (HoldsResult e token code × (xs ≡ []))
unfolding ensure_result_record validate_result_record
ensure_result_record-cases e token code s now xs h = shown e.result refl h
  where
    shown :
        (file : Sidecar WorkerResultRecord)
        → e.result ≡ file
        → ensure_result_record file token code s now ≡ ok xs
        → ((e.result ≡ missing)
            × (xs
                ≡ write_result s token.request_id
                    (result_record token.request_id token.batch_id code now)
                  ∷ []))
          ⊎ (HoldsResult e token code × (xs ≡ []))
    shown missing q h = inl (q, sym (ok-injective h))
    shown failing q h = cc
    shown irregular q h = cc
    shown unreadable q h = cc
    shown oversized q h = cc
    shown malformed q h = cc
    shown (holds r) q h =
        let (m, n, k) = >>=-eq-ok (reject (not (matches_result r token code)) _) _ h in
        inr ((r, q, ground arith), sym (ok-injective k))

pub ensure_result_absent_lem :
    (e : Entry) (id : RequestId) (s : QueueState) (u : Unit {0})
    → ensure_result_absent e.result id s ≡ ok u
    → e.result ≡ missing
unfolding ensure_result_absent
ensure_result_absent_lem e id s u h = ground arith

-- A result is written, and the request is moved to the failed ones.
reported-Run :
    (d : Disk) (id : RequestId) (s : QueueState) (e : Entry) (r : WorkerResultRecord)
    → IsAt d id s e
    → s ≢ completed
    → s ≢ QueueState.failed
    → Run d (write_result s id r ∷ (rename s QueueState.failed id ∷ []))
reported-Run d id s e r at n m = next (Permitted.report at n m) (
    next
      (Permitted.fail {e = record e { result = holds r }}
        (subst (λ f. IsAt f id s (record e { result = holds r }))
          (sym (result_written d id s e r at)) (put-IsAt d id s e _ at))
        n m refl)
      done)

pub fail_pending-Run :
    (id : RequestId) (batch : BatchId) (code : ErrorCode) (now : OffsetDateTime) (d : Disk)
    (xs : List Effect) (u : Unit {0})
    → fail_pending id batch code now d ≡ ok (xs, u)
    → Run d xs
unfolding fail_pending
fail_pending-Run id batch code now d xs u h =
    let (a, x, h1) = >>=-eq-ok (find_existing_state d id) _ h in
    let (s, y, h2) = >>=-eq-ok (ok_or a (request_not_found id)) _ h1 in
    let (n, h3) = reject-eq-ok (not (s == pending)) _ _ h2 in
    let (v, z, h4) =
      >>=-eq-ok
        (check_destination (result_at (d.node pending id)) id
          (text "result metadata is not a regular file"))
        _ h3 in
    let there = find_existing_state_sound d id s (x ∙ ap ok (ok_or-eq-ok a _ y)) in
    subst (λ ys. Run d ys) (ap (λ q. q.0) (ok-injective h4))
      (reported-Run d id pending there.0 (result_record id batch code now)
        (subst (λ t. IsAt d id t there.0) (ground (arith, ==_iff s pending)) there.1) (λ q. cc)
        (λ q. cc))

-- What a transition that writes has found.
pub record Finished (token : ClaimToken) (code : Option ErrorCode) (terminal : QueueState)
    (now : OffsetDateTime) (d : Disk) (xs : List Effect) : Type 0 where
  pub entry : Entry
  pub at : IsAt d token.request_id processing entry
  pub result_writes : List Effect
  pub owned : validate_claim_token (d.node processing token.request_id) token processing ≡ ok tt
  pub allowed : result_effects d token code now ≡ ok result_writes
  pub writes : xs ≡ result_writes ++ (rename processing terminal token.request_id ∷ [])

finish_claimed_lem :
    (token : ClaimToken) (terminal : QueueState) (code : Option ErrorCode) (now : OffsetDateTime)
    (s : QueueState) (e : Entry) (d : Disk) (xs : List Effect) (u : Unit {0})
    → IsAt d token.request_id s e
    → finish_claimed token terminal code now s d ≡ ok (xs, u)
    → Finished token code terminal now d xs
unfolding finish_claimed
finish_claimed_lem token terminal code now s e d xs u at h =
    let (n, h1) = reject-eq-ok (not (s == processing)) _ _ h in
    let (v, y, h2) =
      >>=-eq-ok (validate_claim_token (d.node processing token.request_id) token processing) _ h1 in
    let (ws, z, h3) = >>=-eq-ok (result_effects d token code now) _ h2 in
    record {
      entry = e;
      at = subst (λ t. IsAt d token.request_id t e) (ground (arith, ==_iff s processing)) at;
      owned = y;
      result_writes = ws;
      allowed = z;
      writes = sym (ap (λ q. q.0) (ok-injective h3));
    }

abbrev pub AtEnd : ClaimToken → Option ErrorCode → QueueState → Disk → Type 0
AtEnd token code terminal d =
    (e : Entry) × IsAt d token.request_id terminal e
    × (validate_terminal_claim d token terminal code ≡ ok tt)

pub transition_claimed-cases :
    (token : ClaimToken) (terminal : QueueState) (code : Option ErrorCode) (now : OffsetDateTime)
    (d : Disk) (xs : List Effect) (u : Unit {0})
    → transition_claimed token terminal code now d ≡ ok (xs, u)
    → ((xs ≡ []) × AtEnd token code terminal d) ⊎ Finished token code terminal now d xs
unfolding transition_claimed
transition_claimed-cases token terminal code now d xs u h =
    let (a, x, h1) = >>=-eq-ok (find_existing_state d token.request_id) _ h in
    let (s, y, h2) = >>=-eq-ok (ok_or a (request_not_found token.request_id)) _ h1 in
    let there = find_existing_state_sound d token.request_id s (x ∙ ap ok (ok_or-eq-ok a _ y)) in
    branch (s == terminal) s (λ q. (==_iff s terminal).0 q) there.0 there.1 h2
  where
    branch :
        (b : Bool) (s : QueueState)
        → (b ≡ true → s ≡ terminal)
        → (e : Entry) → IsAt d token.request_id s e
        → (if b
            then (validate_terminal_claim d token s code >> ok ([], tt))
            else finish_claimed token terminal code now s d)
          ≡ ok (xs, u)
        → ((xs ≡ []) × AtEnd token code terminal d) ⊎ Finished token code terminal now d xs
    branch true s same e at q =
        let (v, y, k) = >>=-eq-ok (validate_terminal_claim d token s code) _ q in
        inl (
          sym (ap (λ q. q.0) (ok-injective k)),
          (
            e,
            subst (λ t. IsAt d token.request_id t e) (same refl) at,
            subst (λ t. validate_terminal_claim d token t code ≡ ok tt) (same refl) y,
          ),
        )
    branch false s same e at q = inr (finish_claimed_lem token terminal code now s e d xs u at q)

Finished-complete :
    (token : ClaimToken) (now : OffsetDateTime) (d : Disk) (xs : List Effect)
    → Finished token none completed now d xs
    → Run d xs
unfolding result_effects
Finished-complete token now d xs f =
    let (v, y, k) =
      >>=-eq-ok
        (ensure_result_absent (result_at (d.node processing token.request_id)) token.request_id
          processing)
        _ f.allowed in
    let empty = ensure_result_absent_lem f.entry token.request_id processing v (
      ap (λ n. ensure_result_absent (result_at n) token.request_id processing) (sym f.at.here)
      ∙ y) in
    subst (λ ys. Run d ys)
      (ap (λ ws. ws ++ (rename processing completed token.request_id ∷ [])) (ok-injective k)
        ∙ sym f.writes)
      (next (Permitted.complete f.at empty) done)

pub complete_claimed-Run :
    (token : ClaimToken) (now : OffsetDateTime) (d : Disk) (xs : List Effect) (u : Unit {0})
    → complete_claimed token now d ≡ ok (xs, u)
    → Run d xs
complete_claimed-Run token now d xs u h =
    elim (transition_claimed-cases token completed none now d xs u h) [
      | inl q ↦ subst (λ ys. Run d ys) (sym q.0) done
      | inr f ↦ Finished-complete token now d xs f
    ]

Finished-fail :
    (token : ClaimToken) (code : ErrorCode) (now : OffsetDateTime) (d : Disk) (xs : List Effect)
    → Finished token (some code) QueueState.failed now d xs
    → Run d xs
unfolding result_effects
Finished-fail token code now d xs f =
    elim (ensure_result_record-cases f.entry token code processing now f.result_writes (
      ap (λ n. ensure_result_record (result_at n) token code processing now) (sym f.at.here)
      ∙ f.allowed)) [
        | inl q ↦
            subst (λ ys. Run d ys)
              (ap (λ ws. ws ++ (rename processing QueueState.failed token.request_id ∷ []))
                  (sym q.1)
                ∙ sym f.writes)
              (reported-Run d token.request_id processing f.entry _ f.at (λ q. cc) (λ q. cc))
        | inr q ↦
            subst (λ ys. Run d ys)
              (ap (λ ws. ws ++ (rename processing QueueState.failed token.request_id ∷ []))
                  (sym q.1)
                ∙ sym f.writes)
              (next (Permitted.fail f.at (λ q. cc) (λ q. cc) q.0.1) done)
      ]

pub fail_claimed-Run :
    (token : ClaimToken) (code : ErrorCode) (now : OffsetDateTime) (d : Disk) (xs : List Effect)
    (u : Unit {0})
    → fail_claimed token code now d ≡ ok (xs, u)
    → Run d xs
fail_claimed-Run token code now d xs u h =
    elim (transition_claimed-cases token QueueState.failed (some code) now d xs u h) [
      | inl q ↦ subst (λ ys. Run d ys) (sym q.0) done
      | inr f ↦ Finished-fail token code now d xs f
    ]
