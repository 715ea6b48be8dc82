-- ===== src/Destination.antt =====
-- rust/src/s3/destination.rs: the listing of the destination, the stale keys that a deployment may
-- delete, and their deletion. Each child models one part.
pub mod Objects
pub mod Candidates
pub mod Plan
pub mod Cleanup
pub mod DecodeKey
