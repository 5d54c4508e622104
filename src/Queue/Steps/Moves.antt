-- ===== src/Queue/Steps/Moves.antt =====
-- What each write does to the directory of one request.
use agent_knowledge.Prelude.{
  ◌≡◌, sym, ◌∙◌, ◌≢◌, inl, inr, true, false, Bool-cases, arith, ◌==◌, ==_iff, ==_self, nat_eq,
}
use agent_knowledge.Core.Id.{RequestId}
use agent_knowledge.Queue.Disk.{
  QueueState, state_eq, pending, Entry, Node, absent, directory, Disk, put,
}
use agent_knowledge.Queue.Lookup.Placement.{IsAt, IsAbsent}

pub put_same :
    (s : QueueState) (id : RequestId) (n : Node) (d : Disk) → (put s id n d).node s id ≡ n
put_same s id n d = ground (arith, ==_self s, ==_self id)

pub put_state :
    (s t : QueueState) (id k : RequestId) (n : Node) (d : Disk)
    → t ≢ s
    → (put s id n d).node t k ≡ d.node t k
put_state s t id k n d h = ground (arith, ==_iff t s)

pub put_request :
    (s t : QueueState) (id k : RequestId) (n : Node) (d : Disk)
    → k ≢ id
    → (put s id n d).node t k ≡ d.node t k
put_request s t id k n d h = ground (arith, ==_iff k id)

-- A request whose directories are left alone stands where it stood.
pub keep :
    (d f : Disk) (k : RequestId) (s : QueueState) (e : Entry)
    → ((t : QueueState) → f.node t k ≡ d.node t k)
    → IsAt d k s e
    → IsAt f k s e
keep d f k s e same h = record { here = same s ∙ h.here; only = λ t n. same t ∙ h.only t n }

pub keep-IsAbsent :
    (d f : Disk) (k : RequestId)
    → ((t : QueueState) → f.node t k ≡ d.node t k)
    → IsAbsent d k
    → IsAbsent f k
keep-IsAbsent d f k same h t = same t ∙ h t

pub put-IsAt :
    (d : Disk) (id : RequestId) (s : QueueState) (e f : Entry)
    → IsAt d id s e
    → IsAt (put s id (directory f) d) id s f
put-IsAt d id s e f h = record {
  here = put_same s id (directory f) d;
  only = λ t n. put_state s t id id (directory f) d n ∙ h.only t n;
}

pub enqueue-IsAt :
    (d : Disk) (id : RequestId) (e : Entry)
    → IsAbsent d id
    → IsAt (put pending id (directory e) d) id pending e
enqueue-IsAt d id e h = record {
  here = put_same pending id (directory e) d;
  only = λ t n. put_state pending t id id (directory e) d n ∙ h t;
}

pub move-IsAt :
    (d : Disk) (id : RequestId) (s t : QueueState) (e : Entry)
    → s ≢ t
    → IsAt d id s e
    → IsAt (put s id absent (put t id (d.node s id) d)) id t e
move-IsAt d id s t e n h = record {
  here =
      put_state s t id id absent (put t id (d.node s id) d) (λ q. n (sym q))
      ∙ put_same t id (d.node s id) d
      ∙ h.here;
  only = elsewhere;
}
  where
    elsewhere :
        (u : QueueState) → u ≢ t → (put s id absent (put t id (d.node s id) d)).node u id ≡ absent
    elsewhere u m = ground (arith, ==_iff u s, ==_self id, ==_iff u t, h.only u)

-- Where a request stands is unique.
pub IsAt_unique :
    (d : Disk) (id : RequestId) (s t : QueueState) (e f : Entry)
    → IsAt d id s e
    → IsAt d id t f
    → (s ≡ t) × (e ≡ f)
IsAt_unique d id s t e f h k = elim (Bool-cases (s == t)) [
  | inl y ↦ let q = (==_iff s t).0 y in (q, same q)
  | inr n ↦ absurd (different (k.only s (λ q. true≢false (sym ((==_iff s t).1 q) ∙ n))))
]
  where
    same : s ≡ t → e ≡ f
    same q = ground (arith, h.here, k.here, q)

    different : d.node s id ≡ absent → ⊥
    different q = ground (arith, h.here, q)

    true≢false : true ≢ false
    true≢false q = cc

pub absent_not_IsAt :
    (d : Disk) (id : RequestId) (s : QueueState) (e : Entry) → IsAbsent d id → ¬ IsAt d id s e
absent_not_IsAt d id s e a h = absurd_node (a s) h.here
  where
    absurd_node : d.node s id ≡ absent → d.node s id ≡ directory e → ⊥
    absurd_node q r = ground arith
