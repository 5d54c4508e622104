-- ===== src/Queue/Lookup/Placement.antt =====
-- What the lookups answer of a request that is in one state, and in none.
use agent_knowledge.Prelude.{◌≡◌, refl, sym, ◌≢◌, Bool, true, false, none, some, arith, nat_eq, ok}
use agent_knowledge.Core.Id.{RequestId}
use agent_knowledge.Queue.Disk.{
  QueueState, pending, processing, completed, failed, PackageDigest, Entry, Node, absent,
  unreachable, not_directory, directory, Disk,
}
use agent_knowledge.Queue.Lookup.{read_stored_digest, find_existing, find_existing_state}

-- The request stands in this state and in no other.
pub record IsAt (d : Disk) (id : RequestId) (s : QueueState) (e : Entry) : Type 0 where
  pub here : d.node s id ≡ directory e
  pub only : (t : QueueState) → t ≢ s → d.node t id ≡ absent

abbrev pub IsAbsent : Disk → RequestId → Type 0
IsAbsent d id = (t : QueueState) → d.node t id ≡ absent

pub find_existing_state_absent :
    (d : Disk) (id : RequestId) → IsAbsent d id → find_existing_state d id ≡ ok none
unfolding find_existing_state
find_existing_state_absent d id h = rw (h pending, h processing, h completed, h failed) refl

pub find_existing_state_at :
    (d : Disk) (id : RequestId) (s : QueueState) (e : Entry)
    → IsAt d id s e
    → find_existing_state d id ≡ ok (some s)
unfolding find_existing_state
find_existing_state_at d id pending e h =
    rw (h.here, h.only processing (λ q. cc), h.only completed (λ q. cc), h.only failed (λ q. cc))
      refl
find_existing_state_at d id processing e h =
    rw (h.only pending (λ q. cc), h.here, h.only completed (λ q. cc), h.only failed (λ q. cc)) refl
find_existing_state_at d id completed e h =
    rw (h.only pending (λ q. cc), h.only processing (λ q. cc), h.here, h.only failed (λ q. cc)) refl
find_existing_state_at d id failed e h =
    rw (h.only pending (λ q. cc), h.only processing (λ q. cc), h.only completed (λ q. cc), h.here)
      refl

abbrev is_directory : Node → Bool
is_directory (directory e) = true
is_directory _ = false

directory_of : (n : Node) → is_directory n ≡ true → (e : Entry) × (n ≡ directory e)
directory_of (directory e) h = (e, refl)
directory_of absent h = cc
directory_of unreachable h = cc
directory_of not_directory h = cc

-- The four nodes of a request that is found.
abbrev Nodes : Disk → RequestId → QueueState → Type 0
Nodes d id s =
    (is_directory (d.node s id) ≡ true)
    × (s ≢ pending → d.node pending id ≡ absent)
    × (s ≢ processing → d.node processing id ≡ absent)
    × (s ≢ completed → d.node completed id ≡ absent)
    × (s ≢ failed → d.node failed id ≡ absent)

found-Nodes :
    (d : Disk) (id : RequestId) (s : QueueState)
    → find_existing_state d id ≡ ok (some s)
    → Nodes d id s
unfolding find_existing_state
found-Nodes d id pending h = ground arith
found-Nodes d id processing h = ground arith
found-Nodes d id completed h = ground arith
found-Nodes d id failed h = ground arith

-- The lookup finds a state only if the request stands there and nowhere else.
pub find_existing_state_sound :
    (d : Disk) (id : RequestId) (s : QueueState)
    → find_existing_state d id ≡ ok (some s)
    → (e : Entry) × IsAt d id s e
find_existing_state_sound d id s h =
    let (there, a, b, c, f) = found-Nodes d id s h in
    let (e, here) = directory_of (d.node s id) there in
    (e, record { here = here; only = others a b c f })
  where
    others :
        (s ≢ pending → d.node pending id ≡ absent)
        → (s ≢ processing → d.node processing id ≡ absent)
        → (s ≢ completed → d.node completed id ≡ absent)
        → (s ≢ failed → d.node failed id ≡ absent)
        → (t : QueueState) → t ≢ s
        → d.node t id ≡ absent
    others a b c f pending n = a (λ q. n (sym q))
    others a b c f processing n = b (λ q. n (sym q))
    others a b c f completed n = c (λ q. n (sym q))
    others a b c f failed n = f (λ q. n (sym q))

absent-Nodes :
    (d : Disk) (id : RequestId)
    → find_existing_state d id ≡ ok none
    → (d.node pending id ≡ absent)
      × (d.node processing id ≡ absent)
      × (d.node completed id ≡ absent)
      × (d.node failed id ≡ absent)
unfolding find_existing_state
absent-Nodes d id h = ground arith

pub find_existing_state-none :
    (d : Disk) (id : RequestId) → find_existing_state d id ≡ ok none → IsAbsent d id
find_existing_state-none d id h pending = (absent-Nodes d id h).0
find_existing_state-none d id h processing = (absent-Nodes d id h).1
find_existing_state-none d id h completed = (absent-Nodes d id h).2
find_existing_state-none d id h failed = (absent-Nodes d id h).3

-- The lookup that reads the digest finds what the other one finds, and the digest that is stored there.
find_existing_agrees :
    (d : Disk) (id : RequestId) (s : QueueState) (g : PackageDigest)
    → find_existing d id ≡ ok (some (s, g))
    → find_existing_state d id ≡ ok (some s)
unfolding find_existing find_existing_state
find_existing_agrees d id pending g h = ground arith
find_existing_agrees d id processing g h = ground arith
find_existing_agrees d id completed g h = ground arith
find_existing_agrees d id failed g h = ground arith

find_existing_digest :
    (d : Disk) (id : RequestId) (s : QueueState) (g : PackageDigest) (e : Entry)
    → find_existing d id ≡ ok (some (s, g))
    → d.node s id ≡ directory e
    → read_stored_digest e.digest id s ≡ ok g
unfolding find_existing
find_existing_digest d id pending g e h n = ground arith
find_existing_digest d id processing g e h n = ground arith
find_existing_digest d id completed g e h n = ground arith
find_existing_digest d id failed g e h n = ground arith

pub find_existing_sound :
    (d : Disk) (id : RequestId) (s : QueueState) (g : PackageDigest)
    → find_existing d id ≡ ok (some (s, g))
    → (e : Entry) × IsAt d id s e × (read_stored_digest e.digest id s ≡ ok g)
find_existing_sound d id s g h =
    let (e, at) = find_existing_state_sound d id s (find_existing_agrees d id s g h) in
    (e, at, find_existing_digest d id s g e h at.here)

none_agrees :
    (d : Disk) (id : RequestId) → find_existing d id ≡ ok none → find_existing_state d id ≡ ok none
unfolding find_existing find_existing_state
none_agrees d id h = ground arith

pub find_existing-none : (d : Disk) (id : RequestId) → find_existing d id ≡ ok none → IsAbsent d id
find_existing-none d id h = find_existing_state-none d id (none_agrees d id h)

pub find_existing_at :
    (d : Disk) (id : RequestId) (s : QueueState) (e : Entry) (g : PackageDigest)
    → IsAt d id s e
    → read_stored_digest e.digest id s ≡ ok g
    → find_existing d id ≡ ok (some (s, g))
unfolding find_existing
find_existing_at d id pending e g h r =
    rw (h.here, r, h.only processing (λ q. cc), h.only completed (λ q. cc), h.only failed (λ q. cc))
      refl
find_existing_at d id processing e g h r =
    rw (h.only pending (λ q. cc), h.here, r, h.only completed (λ q. cc), h.only failed (λ q. cc))
      refl
find_existing_at d id completed e g h r =
    rw (h.only pending (λ q. cc), h.only processing (λ q. cc), h.here, r, h.only failed (λ q. cc))
      refl
find_existing_at d id failed e g h r =
    rw
      (h.only pending (λ q. cc), h.only processing (λ q. cc), h.only completed (λ q. cc), h.here, r)
      refl
