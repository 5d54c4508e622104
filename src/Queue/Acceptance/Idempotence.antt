-- ===== src/Queue/Acceptance/Idempotence.antt =====
-- A package that is offered again.
use agent_knowledge.Prelude.{
  ℕ, ◌≡◌, refl, sym, ◌∙◌, ap, ◌≢◌, true, false, not, Option, none, some, List, [], ◌∷◌, arith,
  subst, ◌==◌, ==_iff, nat_eq, list_eq, if◌then◌else◌, Bool-cases, inl, inr, ok, err, ◌>>=◌,
  map_err, >>=-eq-ok, reject-eq-ok, map_err-eq-ok, ok-injective, Text,
}
use agent_knowledge.Core.Time.{OffsetDateTime}
use agent_knowledge.Core.Id.{RequestId}
use agent_knowledge.Core.Revision.{IsDigest}
use agent_knowledge.Queue.Disk.{
  QueueState, pending, PackageDigest, Package, Disk, Effect, enqueue, write_sequence, apply, commit,
}
use agent_knowledge.Queue.Failures.{QueueError}
use agent_knowledge.Queue.Lookup.{find_existing}
use agent_knowledge.Queue.Lookup.Placement.{IsAbsent, find_existing-none, find_existing_at}
use agent_knowledge.Queue.Acceptance.{
  EnqueueOutcome, accepted, existing, files_of, allocate_sequence, accepted_entry, revalidation,
  accept_existing, accept_new, accept,
}
use agent_knowledge.Queue.Acceptance.Digests.{read_stored_digest-digest_contents}
use agent_knowledge.Queue.Steps.Moves.{enqueue-IsAt}

-- The state that an outcome reports.
abbrev pub outcome_state : EnqueueOutcome → QueueState
outcome_state (accepted id g) = pending
outcome_state (existing id g s) = s

-- The request is found in this state, with a package of this identifier and digest.
record Known (d : Disk) (id : RequestId) (s : QueueState) (g : PackageDigest) : Type 0 where
  stored : PackageDigest
  found : find_existing d id ≡ ok (some (s, stored))
  contents : Package
  files : files_of (d.node s id) ≡ ok contents
  same_id : contents.request_id ≡ id
  same_digest : contents.digest ≡ g

Known-again :
    (d : Disk) (q : Package) (s : QueueState) (g : PackageDigest) (now : OffsetDateTime)
    (client : Option Text)
    → Known d q.request_id s g
    → (q.digest ≡ g → accept q now client d ≡ ok ([], existing q.request_id q.digest s))
      × (q.digest ≢ g → accept q now client d ≡ err (QueueError.request_id_reused q.request_id s))
unfolding accept accept_existing
Known-again d q s g now client k = (
  (λ same.
      rw
        (
          k.found,
          k.files,
          equal k.contents.request_id q.request_id k.same_id,
          digest_equal (k.same_digest ∙ sym same),
        )
        refl),
  (λ other.
      rw
        (
          k.found,
          k.files,
          equal k.contents.request_id q.request_id k.same_id,
          digest_differs (λ e. other (sym e ∙ k.same_digest)),
        )
        refl),
)
  where
    equal : (a b : RequestId) → a ≡ b → (a == b) ≡ true
    equal a b h = (==_iff a b).1 h

    digest_equal : k.contents.digest ≡ q.digest → (k.contents.digest == q.digest) ≡ true
    digest_equal h = (==_iff k.contents.digest q.digest).1 h

    digest_differs : k.contents.digest ≢ q.digest → (k.contents.digest == q.digest) ≡ false
    digest_differs h = ground (arith, ==_iff k.contents.digest q.digest)

new-Known :
    (p : Package) (now : OffsetDateTime) (client : Option Text) (d : Disk) (xs : List Effect)
    (o : EnqueueOutcome)
    → IsDigest p.digest
    → IsAbsent d p.request_id
    → accept_new d p now client ≡ ok (xs, o)
    → Known (commit xs d) p.request_id (outcome_state o) p.digest
unfolding accept_new commit apply
new-Known p now client d xs o digest gone h =
    let (n, x, h1) = >>=-eq-ok (allocate_sequence d) _ h in
    let q = ok-injective h1 in
    subst (λ r. Known (commit r.0 d) p.request_id (outcome_state r.1) p.digest) q (known n.0 n.1)
  where
    known :
        (n m : ℕ)
        → Known
            (commit
              (write_sequence m ∷ (enqueue p.request_id (accepted_entry p n now client) ∷ []))
              d)
            p.request_id
            pending
            p.digest
    known n m =
        let at =
          enqueue-IsAt (record d { next_sequence = m }) p.request_id (accepted_entry p n now client)
            gone in
        record {
          stored = p.digest;
          found =
              find_existing_at _ p.request_id pending _ p.digest at
                (read_stored_digest-digest_contents p.digest p.request_id pending digest);
          contents = record p {
            acceptance = some (record { sequence = n; accepted_at = now; client_id = client });
          };
          files = ap files_of at.here;
          same_id = refl;
          same_digest = refl;
        }

old-Known :
    (p : Package) (d : Disk) (s : QueueState) (g : PackageDigest) (o : EnqueueOutcome)
    → find_existing d p.request_id ≡ ok (some (s, g))
    → accept_existing d p s ≡ ok o
    → Known d p.request_id (outcome_state o) p.digest
unfolding accept_existing
old-Known p d s g o found h =
    let id = p.request_id in
    let (old, x, h1) = >>=-eq-ok (map_err (revalidation id s) (files_of (d.node s id))) _ h in
    let (a, h2) = reject-eq-ok (not (old.request_id == id)) _ _ h1 in
    let (b, h3) = reject-eq-ok (not (old.digest == p.digest)) _ _ h2 in
    subst (λ r. Known d id (outcome_state r) p.digest) (ok-injective h3)
      (record {
        stored = g;
        found = found;
        contents = old;
        files = map_err-eq-ok (revalidation id s) _ x;
        same_id = ground (arith, ==_iff old.request_id id);
        same_digest = ground (arith, ==_iff old.digest p.digest);
      })

accept-Known :
    (p : Package) (now : OffsetDateTime) (client : Option Text) (d : Disk) (xs : List Effect)
    (o : EnqueueOutcome)
    → IsDigest p.digest
    → accept p now client d ≡ ok (xs, o)
    → Known (commit xs d) p.request_id (outcome_state o) p.digest
unfolding accept commit
accept-Known p now client d xs o digest h =
    let (a, x, h1) = >>=-eq-ok (find_existing d p.request_id) _ h in found a x h1
  where
    found :
        (a : Option (QueueState × PackageDigest))
        → find_existing d p.request_id ≡ ok a
        → elim a [
          | some b ↦ accept_existing d p b.0 >>= λ outcome. ok ([], outcome)
          | none ↦ accept_new d p now client
        ]
          ≡ ok (xs, o)
        → Known (commit xs d) p.request_id (outcome_state o) p.digest
    found none x q = new-Known p now client d xs o digest (find_existing-none d p.request_id x) q
    found (some b) x q =
        let (y, z, k) = >>=-eq-ok (accept_existing d p b.0) _ q in
        subst (λ r. Known (commit r.0 d) p.request_id (outcome_state r.1) p.digest) (ok-injective k)
          (old-Known p d b.0 b.1 y x z)

-- Once a package with a digest of 32 bytes is accepted, a package with the same identifier is answered
-- as follows, at any time and without a write, on the disk that the acceptance leaves: with the same
-- digest, the request exists, in the state that was answered first; with another digest, the identifier
-- is reused.
pub accept_again :
    (p q : Package) (now later : OffsetDateTime) (client other : Option Text) (d : Disk)
    (xs : List Effect) (o : EnqueueOutcome)
    → IsDigest p.digest
    → q.request_id ≡ p.request_id
    → accept p now client d ≡ ok (xs, o)
    → accept q later other (commit xs d) ≡ (
        if q.digest == p.digest
        then ok ([], existing q.request_id q.digest (outcome_state o))
        else err (QueueError.request_id_reused q.request_id (outcome_state o)))
accept_again p q now later client other d xs o digest same h =
    let (again, reused) = Known-again (commit xs d) q (outcome_state o) p.digest later other (
      subst (λ i. Known (commit xs d) i (outcome_state o) p.digest) (sym same)
        (accept-Known p now client d xs o digest h)) in
    elim (Bool-cases (q.digest == p.digest)) [
      | inl y ↦ rw y (again ((==_iff q.digest p.digest).0 y))
      | inr n ↦ rw n (reused (λ e. ground (arith, ==_iff q.digest p.digest)))
    ]
