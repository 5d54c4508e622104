-- ===== src/Queue/Lookup.antt =====
-- Where a request stands: `read_stored_digest` and `find_existing` of crates/queue/src/file_queue.rs, and
-- `find_existing_state_without_package_read` of crates/queue/src/file_queue/worker/result.rs.
pub mod Placement
use agent_knowledge.Prelude.{
  ℕ, ◌+◌, Bool, true, false, not, Option, none, some, List, [], ◌∷◌, ◌++◌, ◌==◌, nat_eq, list_eq,
  if◌then◌else◌, ltb, any, take, length, ends_with_char, Result, ok, err, ◌>>=◌, ◌>>◌, reject,
  ok_or, map_err, Bytes, Text, text, is_utf8,
}
use agent_knowledge.Core.Id.{RequestId}
use agent_knowledge.Core.Revision.{parse}
use agent_knowledge.Core.Markdown.{strip_last}
use agent_knowledge.Queue.Disk.{
  QueueState, all_states, PackageDigest, DigestFile, missing, failing, irregular, unreadable, holds,
  Entry, Node, absent, unreachable, not_directory, directory, Disk,
}
use agent_knowledge.Queue.Failures.{QueueError, WorkerQueueError, queue}

abbrev pub maximum_digest_file_bytes : ℕ
maximum_digest_file_bytes = 72

-- The checks of the contents, of which 73 bytes are read. A byte above 127 is no part of a digest,
-- whether it is taken alone or as a part of a character.
unfoldable pub parse_digest : Bytes → RequestId → QueueState → Result QueueError PackageDigest
unfolding strip_last
parse_digest file id state = do
  let bytes = take (maximum_digest_file_bytes + 1) file
  reject (not (is_utf8 bytes)) (QueueError.corrupt_state id state (text "digest is not UTF-8"))
  reject (ltb maximum_digest_file_bytes (length bytes))
      (QueueError.corrupt_state id state (text "digest file is too large"))
  reject (not (ends_with_char b'\n' bytes))
      (QueueError.corrupt_state id state (text "digest is not newline-terminated"))
  reject (any (λ c. c == b'\n') (strip_last b'\n' bytes))
      (QueueError.corrupt_state id state (text "digest contains multiple lines"))
  map_err (λ _. QueueError.corrupt_state id state (text "digest is not a canonical SHA-256 value"))
      (parse (strip_last b'\n' bytes))

unfoldable pub read_stored_digest :
    DigestFile → RequestId → QueueState → Result QueueError PackageDigest
read_stored_digest missing id state =
    err (QueueError.corrupt_state id state (text "digest is missing"))
read_stored_digest failing id state = err QueueError.io
read_stored_digest irregular id state =
    err (QueueError.corrupt_state id state (text "digest entry is not a regular file"))
read_stored_digest unreadable id state = err QueueError.io
read_stored_digest (holds file) id state = parse_digest file id state

-- The loop of `find_existing` over the states.
unfoldable pub find_in :
    Disk
    → RequestId
    → List QueueState
    → Option (QueueState × PackageDigest)
    → Result QueueError (Option (QueueState × PackageDigest))
find_in d id [] existing = ok existing
find_in d id (s ∷ ss) existing = elim (d.node s id) [
  | absent ↦ find_in d id ss existing
  | unreachable ↦ err QueueError.io
  | not_directory ↦ err (QueueError.corrupt_state id s (text "request entry is not a directory"))
  | directory e ↦ elim existing [
    | some old ↦ err (QueueError.request_in_multiple_states id)
    | none ↦ read_stored_digest e.digest id s >>= λ g. find_in d id ss (some (s, g))
  ]
]

unfoldable pub find_existing :
    Disk → RequestId → Result QueueError (Option (QueueState × PackageDigest))
unfolding find_in
find_existing d id = find_in d id all_states none

-- The loop of `find_existing_state_without_package_read`.
unfoldable pub find_state_in :
    Disk
    → RequestId
    → List QueueState
    → Option QueueState
    → Result WorkerQueueError (Option QueueState)
find_state_in d id [] existing = ok existing
find_state_in d id (s ∷ ss) existing = elim (d.node s id) [
  | absent ↦ find_state_in d id ss existing
  | unreachable ↦ err WorkerQueueError.io
  | not_directory ↦
      err (WorkerQueueError.corrupt_state id s (text "request entry is not a directory"))
  | directory e ↦ elim existing [
    | some old ↦ err (queue (QueueError.request_in_multiple_states id))
    | none ↦ find_state_in d id ss (some s)
  ]
]

unfoldable pub find_existing_state : Disk → RequestId → Result WorkerQueueError (Option QueueState)
unfolding find_state_in
find_existing_state d id = find_state_in d id all_states none
