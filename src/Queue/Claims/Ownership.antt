-- ===== src/Queue/Claims/Ownership.antt =====
-- Who owns a claim: the token of a claim that succeeds is the one that the disk holds, and no earlier token
-- is accepted from then on.
use agent_knowledge.Prelude.{
  ◌+◌, ◌≡◌, refl, sym, ◌∙◌, ap, ◌↔◌, true, not, some, List, [], ◌∷◌, arith, subst, ◌==◌, ==_iff,
  ==_self, nat_eq, list_eq, ok, >>=-eq-ok, reject-eq-ok, map_err-eq-ok, ok-injective, text, Bytes,
  is_utf8, ends_with_char, any, take, length, ltb,
}
use agent_knowledge.Core.Time.{OffsetDateTime}
use agent_knowledge.Core.Id.{RequestId, BatchId}
use agent_knowledge.Core.Markdown.{strip_last}
use agent_knowledge.Queue.Disk.{
  QueueState, state_eq, pending, processing, PackageDigest, DigestFile, Package, WorkerPhaseRecord,
  Sidecar, missing, failing, irregular, unreadable, holds, Entry, Disk, Effect, write_phase, rename,
  put, change, apply, commit,
}
use agent_knowledge.Queue.Lookup.{
  maximum_digest_file_bytes, parse_digest, read_stored_digest, find_existing,
}
use agent_knowledge.Queue.Lookup.Placement.{IsAt, find_existing_at}
use agent_knowledge.Queue.Claims.{
  ClaimToken, ClaimedPackage, phase_at, read_phase, check_phase_record, next_attempt,
  check_destination, ensure_pending, claim_record, claim_prepared, read_required_phase, is_owned,
  validate_claimed,
}
use agent_knowledge.Queue.Steps.{attempts}
use agent_knowledge.Queue.Steps.Moves.{put-IsAt, move-IsAt}
use agent_knowledge.Queue.Steps.Operations.{next_attempt_lem, ensure_pending_lem}

-- A claim that succeeds, and the disk after it.
pub record Claimed (id : RequestId) (batch : BatchId) (p : Package) (now : OffsetDateTime)
    (d : Disk) (xs : List Effect) (c : ClaimedPackage) : Type 0 where
  pub entry : Entry
  pub was : IsAt d id pending entry
  pub stored : read_stored_digest entry.digest id pending ≡ ok p.digest
  pub record_held : WorkerPhaseRecord
  pub is_claim_record : record_held ≡ claim_record id batch (attempts entry + 1) now
  pub writes : xs ≡ write_phase pending id record_held ∷ (rename pending processing id ∷ [])
  pub at : IsAt (commit xs d) id processing (record entry { phase = holds record_held })
  pub token : c ≡ record {
    token = record { request_id = id; batch_id = batch; attempt = attempts entry + 1 };
    contents = p;
    package_root = processing;
  }

claimed_disk :
    (id : RequestId) (e : Entry) (r : WorkerPhaseRecord) (d : Disk)
    → IsAt d id pending e
    → IsAt
        (commit (write_phase pending id r ∷ (rename pending processing id ∷ [])) d)
        id
        processing
        (record e { phase = holds r })
unfolding commit apply
claimed_disk id e r d at =
    move-IsAt (put pending id _ d) id pending processing (record e { phase = holds r }) (λ q. cc)
      (subst (λ n. IsAt (put pending id n d) id pending (record e { phase = holds r }))
        (ap (λ n. change (λ f. record f { phase = Sidecar.holds r }) n) (sym at.here))
        (put-IsAt d id pending e _ at))

pub claim_prepared-Claimed :
    (id : RequestId) (batch : BatchId) (p : Package) (now : OffsetDateTime) (d : Disk)
    (xs : List Effect) (c : ClaimedPackage)
    → claim_prepared id batch p now d ≡ ok (xs, c)
    → Claimed id batch p now d xs c
unfolding claim_prepared
claim_prepared-Claimed id batch p now d xs c h =
    let (g, x, h1) = >>=-eq-ok (ensure_pending d id) _ h in
    let (e, at, digest) = ensure_pending_lem d id g x in
    let (m, h2) = reject-eq-ok (not (g == p.digest)) _ _ h1 in
    let (n, y, h3) = >>=-eq-ok (next_attempt (phase_at (d.node pending id)) id pending) _ h2 in
    let (u, z, h4) =
      >>=-eq-ok
        (check_destination (phase_at (d.node pending id)) id
          (text "phase metadata is not a regular file"))
        _ h3 in
    let more =
      next_attempt_lem e id pending n
        (ap (λ k. next_attempt (phase_at k) id pending) (sym at.here) ∙ y) in
    let r = claim_record id batch n now in
    record {
      entry = e;
      was = at;
      stored = digest ∙ ap ok (ground (arith, ==_iff g p.digest));
      record_held = r;
      writes = sym (ap (λ q. q.0) (ok-injective h4));
      is_claim_record = ap (λ k. claim_record id batch k now) more.0;
      at =
          subst (λ ys. IsAt (commit ys d) id processing (record e { phase = holds r }))
            (ap (λ q. q.0) (ok-injective h4)) (claimed_disk id e r d at);
      token =
          sym (ap (λ q. q.1) (ok-injective h4))
          ∙ ap
              (λ k. record {
                token = record { request_id = id; batch_id = batch; attempt = k };
                contents = p;
                package_root = processing;
              })
              more.0;
    }

-- A phase record of this schema and request is read.
pub read_required_phase_ok :
    (r : WorkerPhaseRecord) (id : RequestId) (s : QueueState)
    → r.schema_version ≡ 1
    → r.request_id ≡ id
    → read_required_phase (holds r) id s ≡ ok r
unfolding read_required_phase read_phase check_phase_record
read_required_phase_ok r id s h k = ground arith

-- The claim of a request is owned by a token exactly if the batch and the attempt are the same.
is_owned_iff :
    (r : WorkerPhaseRecord) (t : ClaimToken)
    → (is_owned r t ≡ true) ↔ ((r.batch_id ≡ t.batch_id) × (r.attempt ≡ t.attempt))
is_owned_iff r t = ground arith

parse_digest_state :
    (file : Bytes) (id : RequestId) (s t : QueueState) (g : PackageDigest)
    → parse_digest file id s ≡ ok g
    → parse_digest file id t ≡ ok g
unfolding parse_digest
parse_digest_state file id s t g h =
    let b = take (maximum_digest_file_bytes + 1) file in
    let (h1, k1) = reject-eq-ok (not (is_utf8 b)) _ _ h in
    let (h2, k2) = reject-eq-ok (ltb maximum_digest_file_bytes (length b)) _ _ k1 in
    let (h3, k3) = reject-eq-ok (not (ends_with_char b'\n' b)) _ _ k2 in
    let (h4, k4) = reject-eq-ok (any (λ c. c == b'\n') (strip_last b'\n' b)) _ _ k3 in
    rw (h1, h2, h3, h4, map_err-eq-ok _ _ k4) refl

read_stored_digest_state :
    (f : DigestFile) (id : RequestId) (s t : QueueState) (g : PackageDigest)
    → read_stored_digest f id s ≡ ok g
    → read_stored_digest f id t ≡ ok g
unfolding read_stored_digest
read_stored_digest_state missing id s t g h = cc
read_stored_digest_state failing id s t g h = cc
read_stored_digest_state irregular id s t g h = cc
read_stored_digest_state unreadable id s t g h = cc
read_stored_digest_state (holds file) id s t g h = parse_digest_state file id s t g h

-- The request of a claim, as the lookup finds it afterwards.
pub found_claim :
    (id : RequestId) (batch : BatchId) (p : Package) (now : OffsetDateTime) (d : Disk)
    (xs : List Effect) (c : ClaimedPackage)
    → Claimed id batch p now d xs c
    → find_existing (commit xs d) id ≡ ok (some (processing, p.digest))
found_claim id batch p now d xs c h =
    find_existing_at (commit xs d) id processing _ p.digest h.at
      (read_stored_digest_state h.entry.digest id pending processing p.digest h.stored)

-- Its phase record.
pub held_phase :
    (id : RequestId) (batch : BatchId) (p : Package) (now : OffsetDateTime) (d : Disk)
    (xs : List Effect) (c : ClaimedPackage)
    → (h : Claimed id batch p now d xs c)
    → read_required_phase (phase_at ((commit xs d).node processing id)) id processing
      ≡ ok (claim_record id batch (attempts h.entry + 1) now)
held_phase id batch p now d xs c h =
    rw (h.at.here, h.is_claim_record) (read_required_phase_ok _ id processing refl refl)

-- A claim that succeeds is valid afterwards.
pub claim_prepared-validate_claimed :
    (id : RequestId) (batch : BatchId) (p : Package) (now : OffsetDateTime) (d : Disk)
    (xs : List Effect) (c : ClaimedPackage)
    → claim_prepared id batch p now d ≡ ok (xs, c)
    → validate_claimed c (commit xs d) ≡ ok tt
unfolding validate_claimed
claim_prepared-validate_claimed id batch p now d xs c h =
    let k = claim_prepared-Claimed id batch p now d xs c h in
    rw (k.token, found_claim id batch p now d xs c k, held_phase id batch p now d xs c k)
      (ground (arith, ==_self p.digest, ==_self batch))
