-- ===== src/Lib.antt =====
-- A verification library for agent-knowledge: Markdown documents in a Git repository, which agents
-- change by packaged requests.
--
-- The program. A client packs a change request and its payload files, and a gateway puts the package in
-- a queue (crates/queue). The worker (crates/worker) claims packages, and for each one the repository
-- (crates/repository) plans the file changes, executes the plan in a working tree and commits it. The
-- values that all of them exchange, and their validation, are in crates/core. A content tree is indexed
-- from its files alone, so that the planned paths and texts must be those that the index accepts.
--
-- The parts of the model.
--   Prelude: results and the `?` operator, tests of equality, lists, and texts. A text is the list of its
--     code points, bytes are a list of numbers below 256, and `bytes` and `is_utf8` relate the two.
--   Core.Path (crates/core/src/path.rs): project identifiers, payload paths, attachment names.
--   Core.Revision, Core.Id (crates/core/src/revision.rs, id.rs): revisions and identifiers as texts.
--   Core.ErrorCode (crates/core/src/error_code.rs): the classes of errors.
--   Core.Document (crates/core/src/document.rs): metadata and `DocumentMetadata::validate`.
--   Core.Markdown (crates/core/src/markdown.rs): front matter and body of a document.
--   Core.Request (crates/core/src/request.rs): `ChangeRequest::validate`, and in Core.Request.Wire the
--     conversion from the JSON form.
--   Repository.Layout (crates/repository/src/apply.rs and index.rs): where documents stand.
--   Repository.Index (crates/repository/src/index.rs): `DocumentRecord::from_markdown`, the
--     classification of a path and the lookup. The index is its map of documents.
--   Repository.Apply (crates/repository/src/apply.rs): the guards; Apply.Occupancy for
--     `VirtualOccupancy`; Apply.Archive for `archived_markdown`; Apply.Plan for `build_plan`, with one
--     function for each arm of its `match` and one record for the variables that its loop changes.
--   Queue (crates/queue/src/file_queue.rs and file_queue/worker): Queue.Disk for what is kept below the
--     root, with the writes that an operation does as a list; Queue.Lookup for where a request stands;
--     Queue.Acceptance for `accept_with_hook_until`; Queue.Claims (worker.rs, recovery.rs) for the claims
--     of one request; Queue.Results (result.rs) for its end; Queue.Session for the session of the worker;
--     Queue.Batch (batch.rs) for the scan of the pending requests and `claim_batch`, which
--     Queue.Batch.Rounds calls again while it answers `Scanning`, as its doc asks of the caller;
--     Queue.Recovery (recovery.rs) for the scan of the processing directory; Queue.Reconciliation
--     (result.rs) for `reconcile_batch`. Queue.Steps is the specification: which write is permitted on
--     which disk, and what a sequence of operations is that may each end after any of its writes.
--   Worker.Schedule (crates/worker/src/schedule.rs): when the pending requests are closed into a batch.
--
-- Parameters. SHA-256, the YAML decoder and encoder and the text of a ULID are the fields of
-- `Repository.Index.Crates`, and `Core.Id.UlidCrate` is the ulid crate's parser and printer. What the file
-- system answers is `Repository.Apply.Files`, and the sum of a time and a duration is an argument.
-- The queue reads a package by what its validation answers, and its other files by what the file system
-- and the decoder answer. Theorems that need more of the YAML encoder name it as a hypothesis: `IsYaml`
-- says that the printed front matter is whole lines without a delimiter, and that a reading of it that
-- succeeds within its limit gives what was printed.
--
-- Numbers and loops. Sums of `u64` and `usize` are checked or saturated at 2 ^ 64, as in the source. The
-- loops go over lists. The fuel of the decimal digits is `n + 1` for the number `n`, which is more than
-- its digits, and that of the scan of a batch is the source's own limit on the entries of one call.
--
-- Not modelled: file descriptors and the walk of the content tree, the execution of a plan, Git,
-- the staging, validation, locks and maintenance of the queue, its observation of pending requests, the
-- rest of the worker, releases, access keys, the protocol, gateway and client, the command lines and the
-- deployment. Error messages are left out, and so are the I/O causes inside
-- errors.
pub mod Core
pub mod Prelude
pub mod Queue
pub mod Repository
pub mod Worker
