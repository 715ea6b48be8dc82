-- ===== src/Lib.antt =====
-- shin-bucket-deployment: the Rust provider behind the CDK construct (rust/src), which deploys
-- archives to a destination bucket, removes what is stale there, cleans up destinations that are
-- left, invalidates CloudFront distributions, and answers CloudFormation.
--
-- The parts and how they interact, with the file that models each:
-- - Deployment (rust/src/deployment.rs): the parsed request, the filters and the manifest.
-- - Namespace (rust/src/namespace.rs): prefixes as namespaces of keys, and who owns them by the tags
--   on a bucket. Relation and Ownership say what the comparisons promise of the keys.
-- - Lifecycle (rust/src/lifecycle.rs): what an update does with the destination that it leaves, from
--   the relation of the two namespaces and the authorization. Safety is about the keys.
-- - Destination (rust/src/s3/destination.rs): Plan is the reading of a listing (plan_destination),
--   Candidates the retained stale keys, Objects the listed metadata and the write preconditions,
--   Cleanup the deletion after the transfer and of whole namespaces, DecodeKey the keys' encoding.
--   Stale cleanup asks Namespace for competing owners and uses what Plan retained.
-- - Cloudformation (rust/src/cloudformation.rs): process_request_inner, which plans by Lifecycle,
--   calls the transfer, the guarded deletions and the invalidations. The services are a record of
--   operations on a world, so that everything holds whatever they do; a run carries the log of the
--   calls. Order and Scope say which calls come when, Outcome how a request ends early, Preflight
--   (preflight_invalidation_requests) that paths are checked before work starts.
-- - Cloudfront (rust/src/cloudfront.rs): the validation of paths, the creation of an invalidation.
--   Texts says what the tests on a path look for, Paths which paths are accepted.
-- - Deadline (rust/src/deadline.rs), Retry (rust/src/s3/retry.rs): the clock's deadlines, and the
--   waits between attempts with the cooldown that the tasks share.
-- - Replace (rust/src/replace.rs): the streaming replacement of markers, with its accounting.
--   Spec says what replacement means and what the automaton promises, Stable and Stream relate the
--   chunked loop to it.
-- - ArchiveKey (rust/src/request.rs): the normalization of archive keys, with its shortcut.
-- - Planner (rust/src/s3/planner.rs): the checks of an archive's directory and entries; Manifest is
--   the manifest and the plans collected from it, Entries the loop over an archive's entries. Offsets,
--   Groups, Turn and Apart carry the proof that the plans have spans that are apart, which Blocks asks
--   for; Expansion is about the limits of expansion. Catalog is the check of the embedded catalog, with
--   Distinct and Files as the lemmas of Agreement.
-- - Directory (rust/src/s3/archive/directory.rs): spans of the source that are read through blocks which
--   are kept; Locate is the backward search for the end record, Records what is read of the end records.
--   Spans says that the bytes are the source's, Search is about the search, Bounds and RoundTrip are
--   about the records.
-- - Blocks (rust/src/s3/archive/block_store.rs): the blocks that the spans of the plans are cut into.
--   Order and Cut say that they are laid out, Cover that no byte is lost, Lookup that positions and
--   spans find their blocks.
-- - BlockStore (the same file): the state of the store and its lock sections, Claims those of the
--   readers. Steps makes each section a step that any task may take at any time, so that a run is any
--   sequence of sections; Accounts is the invariant, which Sections, Readers and Loops keep, Safety,
--   Failure and Waiting are about every reachable state.
-- - SourceWindow (rust/src/s3.rs): how much of an archive is kept in memory.
-- - Prelude: Booleans, lists, byte texts, machine words and fallible results. Tests: concrete runs.
--
-- Representation: a string is the list of its UTF-8 bytes; a map is an association list; a lock's
-- content is a state that other tasks may change between two turns of its holder; times are
-- milliseconds on a clock whose last instant is an argument; u64 and the 64-bit usize keep their
-- saturating and checked operations. The entries of a ZIP file (async_zip) are records of what its
-- accessors give; partition_point is the length of the prefix that satisfies the test. MD5 states are
-- the bytes hashed so far. The entries of a catalog are compared in the order of an association list,
-- where the program has a hash map's: only which of two errors is reported depends on it.
--
-- Bounds: emit_loop runs on fuel, the length of the pending bytes. A marker is not empty, so that a
-- round moves the cursor by a byte at least and the rounds cannot outnumber the bytes. cooldown_loop
-- runs over the turns that come, since its sleeps depend on other tasks. cut_span and span_loop have as
-- many turns as their span has bytes, and a turn takes a byte at least. locate_loop has as many turns
-- as the source has bytes, and a turn moves the end of the search back by a byte at least.
--
-- Not modelled: the AWS clients, the HTTP callback, serde's decoding of requests, glob matching, the
-- Aho-Corasick automaton and inflation, which are libraries; where the models use them they are
-- arguments. Outside the models are also the reading of entries, the transfer workers, the callback,
-- the building of the marker pairs, and the diagnostics, which no decision depends on.
pub mod Prelude
pub mod Deployment
pub mod ArchiveKey
pub mod Namespace
pub mod Lifecycle
pub mod Destination
pub mod Cloudfront
pub mod Cloudformation
pub mod Deadline
pub mod Retry
pub mod Replace
pub mod SourceWindow
pub mod Planner
pub mod Blocks
pub mod BlockStore
pub mod Directory
mod Tests
