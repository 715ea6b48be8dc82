-- ===== src/BlockStore/Steps.antt =====
-- The lock sections of rust/src/s3/archive/block_store.rs as steps, in any order and by any task.
use shin_bucket_deployment.Prelude.{ℕ, List, Bool, Bytes, ◌≡◌, Result, ok}
use shin_bucket_deployment.Blocks.{SourceBlockRange}
use shin_bucket_deployment.BlockStore.{
  SourceBlockState, SourceFetchMode, reserve_begin, reserve_denied, reserve_granted, rollback_fetch,
  finish_fetch,
}
use shin_bucket_deployment.BlockStore.Claims.{
  activate_reader, release_entry_attempt, release_block_reader, add_replay_claims, cancel,
}

module _ (blocks : List SourceBlockRange) (window_bytes : ℕ) where
  pub data Step (s : SourceBlockState) : SourceBlockState → Type 0 where
    begin : (mode : SourceFetchMode) (i : ℕ) → Step s (reserve_begin blocks window_bytes mode i s).1
    deny : (error : Bytes) (i : ℕ) → Step s (reserve_denied blocks error i s)
    grant : (i : ℕ) → Step s (reserve_granted blocks i s)
    rollback : (restore : Bool) (i : ℕ) → Step s (rollback_fetch blocks restore i s)
    finish : (result : Result Bytes Bytes) (i : ℕ) → Step s (finish_fetch blocks result i s)
    activate :
        (indices : List ℕ) (t : SourceBlockState) → activate_reader indices s ≡ ok t → Step s t
    release_attempt : (indices : List ℕ) → Step s (release_entry_attempt blocks indices s)
    release_block : (i : ℕ) → Step s (release_block_reader blocks i s)
    replay : (start end_exclusive : ℕ) → Step s (add_replay_claims blocks start end_exclusive s)
    fail : (reason : Bytes) → Step s (cancel reason s)

  pub data Reach (s : SourceBlockState) : SourceBlockState → Type 0 where
    start : Reach s s
    later : {t u : SourceBlockState} → Reach s t → Step t u → Reach s u
