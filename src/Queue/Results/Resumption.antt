-- ===== src/Queue/Results/Resumption.antt =====
-- The terminal transitions, done again after a crash between any two of their writes.
use agent_knowledge.Prelude.{
  ◌≡◌, refl, sym, ◌∙◌, ap, ◌⊎◌, inl, inr, Option, none, some, List, [], ◌∷◌, ◌++◌, ok, ok-injective,
  >>=-eq-ok, >>=-eq-ok,
}
use agent_knowledge.Core.Time.{OffsetDateTime}
use agent_knowledge.Core.ErrorCode.{ErrorCode}
use agent_knowledge.Queue.Disk.{
  QueueState, processing, completed, missing, Entry, directory, Disk, Effect, write_result, rename,
  commit,
}
use agent_knowledge.Queue.Lookup.Placement.{IsAt}
use agent_knowledge.Queue.Claims.{ClaimToken}
use agent_knowledge.Queue.Results.{
  result_at, result_record, validate_claim_token, ensure_result_absent, ensure_result_record,
  result_effects, complete_claimed, fail_claimed,
}
use agent_knowledge.Queue.Results.Recovery.{
  Ends, left-Ends, moves-Ends, renamed-Ends, completed_valid, failed_valid, held_effects,
  missing_effects, absent_effects, reported_at, result_record_matches, validate_claim_token_moves,
}
use agent_knowledge.Queue.Steps.Outcomes.{
  HoldsResult, ensure_result_record-cases, ensure_result_absent_lem, Finished,
  transition_claimed-cases,
}

-- The beginnings of a sequence of one write, and of two.
prefix_of_one :
    {A : Type 0} (x : A) (ys zs : List A) → ys ++ zs ≡ x ∷ [] → (ys ≡ []) ⊎ (ys ≡ x ∷ [])
prefix_of_one x [] zs h = inl refl
prefix_of_one x (y ∷ []) zs h = inr cc
prefix_of_one x (y ∷ (w ∷ ys)) zs h = cc

prefix_of_two :
    {A : Type 0} (x y : A) (ys zs : List A)
    → ys ++ zs ≡ x ∷ (y ∷ [])
    → (ys ≡ []) ⊎ ((ys ≡ x ∷ []) ⊎ (ys ≡ x ∷ (y ∷ [])))
prefix_of_two x y [] zs h = inl refl
prefix_of_two x y (a ∷ []) zs h = inr (inl cc)
prefix_of_two x y (a ∷ (b ∷ [])) zs h = inr (inr cc)
prefix_of_two x y (a ∷ (b ∷ (c ∷ ys))) zs h = cc

prefix_of_none : {A : Type 0} (ys zs : List A) → ys ++ zs ≡ [] → ys ≡ []
prefix_of_none [] zs h = refl
prefix_of_none (y ∷ ys) zs h = cc

entry_owned :
    (token : ClaimToken) (terminal : QueueState) (code : Option ErrorCode) (now : OffsetDateTime)
    (d : Disk) (xs : List Effect)
    → (f : Finished token code terminal now d xs)
    → validate_claim_token (directory f.entry) token processing ≡ ok tt
entry_owned token terminal code now d xs f =
    ap (λ n. validate_claim_token n token processing) (sym f.at.here) ∙ f.owned

-- From a disk where the result is there or is written, to the end.
held-Ends :
    (token : ClaimToken) (code : ErrorCode) (now : OffsetDateTime) (d : Disk) (e : Entry)
    → IsAt d token.request_id processing e
    → validate_claim_token (directory e) token processing ≡ ok tt
    → HoldsResult e token code
    → Ends token QueueState.failed (some code) now d
      × Ends token QueueState.failed
          (some code)
          now
          (commit (rename processing QueueState.failed token.request_id ∷ []) d)
unfolding commit
held-Ends token code now d e at owned held = (
  moves-Ends token QueueState.failed (some code) now d e e [] (λ q. cc) at owned
      (held_effects token code now d e at held) at,
  renamed-Ends token QueueState.failed (some code) now d e (λ q. cc) at owned
      (λ f. failed_valid token code e f held),
)

missing-Ends :
    (token : ClaimToken) (code : ErrorCode) (now : OffsetDateTime) (d : Disk) (e : Entry)
    → IsAt d token.request_id processing e
    → validate_claim_token (directory e) token processing ≡ ok tt
    → e.result ≡ missing
    → Ends token QueueState.failed (some code) now d
missing-Ends token code now d e at owned empty =
    moves-Ends token QueueState.failed (some code) now d e _ _ (λ q. cc) at owned
      (missing_effects token code now d e at empty)
      (reported_at d token.request_id processing e _ at)

fail_resumes :
    (token : ClaimToken) (code : ErrorCode) (now later : OffsetDateTime) (d : Disk)
    (ys zs : List Effect)
    → Finished token (some code) QueueState.failed now d (ys ++ zs)
    → Ends token QueueState.failed (some code) later (commit ys d)
unfolding commit result_effects
fail_resumes token code now later d ys zs f =
    let owned = entry_owned token QueueState.failed (some code) now d (ys ++ zs) f in
    elim (ensure_result_record-cases f.entry token code processing now f.result_writes (
      ap (λ n. ensure_result_record (result_at n) token code processing now) (sym f.at.here)
      ∙ f.allowed)) [
        | inl q ↦
            written owned q.0
              (prefix_of_two write moved ys zs (f.writes ∙ ap (λ ws. ws ++ (moved ∷ [])) q.1))
        | inr q ↦
            held owned q.0
              (prefix_of_one moved ys zs (f.writes ∙ ap (λ ws. ws ++ (moved ∷ [])) q.1))
      ]
  where
    moved : Effect
    moved = rename processing QueueState.failed token.request_id

    write : Effect
    write =
        write_result processing token.request_id
          (result_record token.request_id token.batch_id code now)

    held :
        validate_claim_token (directory f.entry) token processing ≡ ok tt
        → HoldsResult f.entry token code
        → (ys ≡ []) ⊎ (ys ≡ moved ∷ [])
        → Ends token QueueState.failed (some code) later (commit ys d)
    held owned h (inl q) = rw q (held-Ends token code later d f.entry f.at owned h).0
    held owned h (inr q) = rw q (held-Ends token code later d f.entry f.at owned h).1

    after :
        validate_claim_token (directory f.entry) token processing ≡ ok tt
        → Ends token QueueState.failed (some code) later (commit (write ∷ []) d)
          × Ends token QueueState.failed
              (some code)
              later
              (commit (moved ∷ []) (commit (write ∷ []) d))
    after owned =
        held-Ends token code later (commit (write ∷ []) d) _
          (reported_at d token.request_id processing f.entry _ f.at)
          (validate_claim_token_moves f.entry _ token processing processing refl owned)
          (_, refl, result_record_matches token code now)

    written :
        validate_claim_token (directory f.entry) token processing ≡ ok tt
        → f.entry.result ≡ missing
        → (ys ≡ []) ⊎ ((ys ≡ write ∷ []) ⊎ (ys ≡ write ∷ (moved ∷ [])))
        → Ends token QueueState.failed (some code) later (commit ys d)
    written owned empty (inl q) = rw q (missing-Ends token code later d f.entry f.at owned empty)
    written owned empty (inr (inl q)) = rw q (after owned).0
    written owned empty (inr (inr q)) = rw q (after owned).1

-- A failure that was cut off after any of its writes succeeds when it is reported again at any time, on
-- the disk with those writes, with the same token and code, and leaves the request among the failed
-- ones.
pub fail_claimed_resumes :
    (token : ClaimToken) (code : ErrorCode) (now later : OffsetDateTime) (d : Disk)
    (ys zs : List Effect)
    → fail_claimed token code now d ≡ ok (ys ++ zs, tt)
    → Ends token QueueState.failed (some code) later (commit ys d)
unfolding commit
fail_claimed_resumes token code now later d ys zs h =
    elim (transition_claimed-cases token QueueState.failed (some code) now d (ys ++ zs) tt h) [
      | inl q ↦
          rw (prefix_of_none ys zs q.0) (left-Ends token QueueState.failed (some code) later d q.1)
      | inr f ↦ fail_resumes token code now later d ys zs f
    ]

complete_resumes :
    (token : ClaimToken) (now later : OffsetDateTime) (d : Disk) (ys zs : List Effect)
    → Finished token none completed now d (ys ++ zs)
    → Ends token completed none later (commit ys d)
unfolding commit result_effects
complete_resumes token now later d ys zs f =
    let owned = entry_owned token completed none now d (ys ++ zs) f in
    let (v, y, k) =
      >>=-eq-ok
        (ensure_result_absent (result_at (d.node processing token.request_id)) token.request_id
          processing)
        _ f.allowed in
    let empty = ensure_result_absent_lem f.entry token.request_id processing v (
      ap (λ n. ensure_result_absent (result_at n) token.request_id processing) (sym f.at.here)
      ∙ y) in
    elim (prefix_of_one moved ys zs
      (f.writes ∙ ap (λ ws. ws ++ (moved ∷ [])) (sym (ok-injective k)))) [
        | inl q ↦ rw q (
            moves-Ends token completed none later d f.entry f.entry [] (λ q. cc) f.at owned
              (absent_effects token later d f.entry f.at empty) f.at)
        | inr q ↦ rw q (
            renamed-Ends token completed none later d f.entry (λ q. cc) f.at owned
              (λ g. completed_valid token f.entry g empty))
      ]
  where
    moved : Effect
    moved = rename processing completed token.request_id

-- A completion that was cut off after any of its writes succeeds when it is done again, on the disk
-- with those writes, with the same token, and leaves the request among the completed ones.
pub complete_claimed_resumes :
    (token : ClaimToken) (now later : OffsetDateTime) (d : Disk) (ys zs : List Effect)
    → complete_claimed token now d ≡ ok (ys ++ zs, tt)
    → Ends token completed none later (commit ys d)
unfolding commit
complete_claimed_resumes token now later d ys zs h =
    elim (transition_claimed-cases token completed none now d (ys ++ zs) tt h) [
      | inl q ↦ rw (prefix_of_none ys zs q.0) (left-Ends token completed none later d q.1)
      | inr f ↦ complete_resumes token now later d ys zs f
    ]
