-- ===== src/Repository/Apply/Occupancy/Laws.antt =====
-- The reservations of a plan: what is occupied after one.
use agent_knowledge.Prelude.{
  ◌≡◌, refl, ◌≢◌, Bool, true, false, Option, none, some, ◌∷◌, arith, ◌==◌, ==_iff, nat_eq, list_eq,
  lookup, ok, err, >>=-eq-ok, reject-eq-ok, ok-injective, sym, ap, ◌∙◌, ==_self, if◌then◌else◌,
}
use agent_knowledge.Repository.Layout.{RelativePath}
use agent_knowledge.Repository.Apply.{Stat, present, missing, failed, Files, destination_exists}
use agent_knowledge.Repository.Apply.Occupancy.{Entries, is_occupied, reserve, move_path}

abbrev of_stat : Stat → Option Bool
of_stat present = some true
of_stat missing = some false
of_stat failed = none

-- Whether a path is occupied, for the plan: by its entry, and else by the file system, which may fail.
unfoldable pub occupied : Files → Entries → RelativePath → Option Bool
occupied files entries path = elim (lookup path entries) [
  | some b ↦ some b
  | none ↦ of_stat (files.stat path)
]

module _ (files : Files) (entries : Entries) (path : RelativePath) where
  is_occupied_sound :
      (answer : Bool × Entries)
      → is_occupied files entries path ≡ ok answer
      → (occupied files entries path ≡ some answer.0)
        × ((q : RelativePath) → occupied files answer.1 q ≡ occupied files entries q)
  unfolding is_occupied occupied lookup
  is_occupied_sound answer h = ground (arith, ==_iff path)

  occupied-insert :
      (b : Bool) (q : RelativePath)
      → occupied files ((path, b) ∷ entries) q
        ≡ (if path == q then some b else occupied files entries q)
  unfolding occupied lookup
  occupied-insert b q = ground arith

  reserve-occupied :
      occupied files entries path ≡ some true
      → reserve files entries path ≡ err (destination_exists path)
  unfolding reserve is_occupied occupied
  reserve-occupied h = ground arith

module _ (files : Files) (entries : Entries) where
  -- A path is reserved only where it is free; then it is occupied, and no other path changes.
  pub reserve_sound :
      (path : RelativePath) (after : Entries)
      → reserve files entries path ≡ ok after
      → (occupied files entries path ≡ some false)
        × ((q : RelativePath)
            → occupied files after q ≡ (if path == q then some true else occupied files entries q))
  unfolding reserve
  reserve_sound path after h =
      let (answer, e, h1) = >>=-eq-ok (is_occupied files entries path) _ h in
      let (free, h2) = reject-eq-ok answer.0 _ _ h1 in
      let (is, same) = is_occupied_sound files entries path answer e in
      (
        is ∙ ap some free,
        λ q.
            ap (λ es. occupied files es q) (sym (ok-injective h2))
            ∙ occupied-insert files answer.1 path true q
            ∙ ap (λ o. if path == q then some true else o) (same q),
      )

  -- A planned move has two different paths, of which the destination is free; then the destination
  -- is occupied, the source is free, and no other path changes.
  pub move_path_sound :
      (source destination : RelativePath) (after : Entries)
      → move_path files entries source destination ≡ ok after
      → (source ≢ destination)
        × (occupied files entries destination ≡ some false)
        × ((q : RelativePath)
            → occupied files after q ≡ (
                if source == q
                then some false
                else if destination == q
                then some true
                else occupied files entries q))
  unfolding move_path
  move_path_sound source destination after h =
      let (differ, h1) = reject-eq-ok (source == destination) _ _ h in
      let (between, e, h2) = >>=-eq-ok (reserve files entries destination) _ h1 in
      let (free, view) = reserve_sound destination between e in
      (
        (λ same. ground (arith, ==_iff source destination)),
        free,
        λ q.
            ap (λ es. occupied files es q) (sym (ok-injective h2))
            ∙ occupied-insert files between source false q
            ∙ ap (λ o. if source == q then some false else o) (view q),
      )

  -- What is reserved cannot be reserved again.
  pub reserve_twice :
      (path : RelativePath) (after : Entries)
      → reserve files entries path ≡ ok after
      → reserve files after path ≡ err (destination_exists path)
  reserve_twice path after h =
      let (free, view) = reserve_sound path after h in
      reserve-occupied files after path (view path ∙ rw (==_self path) refl)
