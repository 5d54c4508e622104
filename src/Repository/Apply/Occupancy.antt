-- ===== src/Repository/Apply/Occupancy.antt =====
-- `VirtualOccupancy` of crates/repository/src/apply.rs: which paths the plan has taken or left so far,
-- over what the file system holds. The map is an association list, newest entry first.
pub mod Laws
use agent_knowledge.Prelude.{
  Bool, true, false, Option, none, some, List, [], ◌∷◌, ◌==◌, nat_eq, list_eq, lookup, Result, ok,
  err, ◌>>=◌, ◌>>◌, reject,
}
use agent_knowledge.Repository.Layout.{RelativePath}
use agent_knowledge.Repository.Apply.{
  Stat, present, missing, failed, Files, ApplyError, destination_exists, io,
}

abbrev pub Entries : Type 0
Entries = List (RelativePath × Bool)

-- What the file system says of a path that has no entry, and the entry that records it.
abbrev pub probe : Stat → RelativePath → Entries → Result ApplyError (Bool × Entries)
probe present path entries = ok (true, (path, true) ∷ entries)
probe missing path entries = ok (false, (path, false) ∷ entries)
probe failed path entries = err io

unfoldable pub is_occupied : Files → Entries → RelativePath → Result ApplyError (Bool × Entries)
is_occupied files entries path = elim (lookup path entries) [
  | some occupied ↦ ok (occupied, entries)
  | none ↦ probe (files.stat path) path entries
]

unfoldable pub reserve : Files → Entries → RelativePath → Result ApplyError Entries
unfolding is_occupied
reserve files entries path = do
  answer ← is_occupied files entries path
  reject answer.0 (destination_exists path)
  ok ((path, true) ∷ answer.1)

unfoldable pub move_path : Files → Entries → RelativePath → RelativePath → Result ApplyError Entries
unfolding reserve
move_path files entries source destination = do
  reject (source == destination) (destination_exists destination)
  entries' ← reserve files entries destination
  ok ((source, false) ∷ entries')
