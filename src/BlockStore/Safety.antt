-- ===== src/BlockStore/Safety.antt =====
-- What holds of the block store of rust/src/s3/archive/block_store.rs after any steps.
use shin_bucket_deployment.Prelude.{ℕ, ◌-◌, ◌≤◌, List, [], ◌∷◌, ◌≡◌, arith, u64_max, ok, max, All}
use shin_bucket_deployment.Planner.{ZipEntryPlan}
use shin_bucket_deployment.Blocks.{SourceBlockRange, block_len, plan_source_blocks}
use shin_bucket_deployment.Blocks.Cut.{
  Laid, IsSmall, plan_source_blocks-Laid, plan_source_blocks-IsSmall,
}
use shin_bucket_deployment.BlockStore.{SourceBlockState}
use shin_bucket_deployment.BlockStore.Claims.{new_state}
use shin_bucket_deployment.BlockStore.Steps.{
  Step, begin, deny, grant, rollback, finish, activate, release_attempt, release_block, replay,
  fail, Reach, start, later,
}
use shin_bucket_deployment.BlockStore.Accounts.{source_bytes, IsAccounted}
use shin_bucket_deployment.BlockStore.Sections.{
  reserve_begin-IsAccounted, reserve_denied-IsAccounted, reserve_granted-IsAccounted,
  rollback_fetch-IsAccounted, finish_fetch-IsAccounted,
}
use shin_bucket_deployment.BlockStore.Loops.{
  activate_reader-IsAccounted, release_entry_attempt-IsAccounted, release_block_reader-IsAccounted,
  add_replay_claims-IsAccounted, cancel-IsAccounted,
}
use shin_bucket_deployment.BlockStore.Start.{new_state-IsAccounted}

module _ (blocks : List SourceBlockRange) (window_bytes : ℕ)
    (m : source_bytes blocks ≤ u64_max) where
  Step-IsAccounted :
      {s t : SourceBlockState}
      → Step blocks window_bytes s t
      → IsAccounted blocks s
      → IsAccounted blocks t
  Step-IsAccounted {s = s} (begin mode i) h =
      reserve_begin-IsAccounted blocks s h m window_bytes mode i
  Step-IsAccounted {s = s} (deny error i) h = reserve_denied-IsAccounted blocks s h error i
  Step-IsAccounted {s = s} (grant i) h = reserve_granted-IsAccounted blocks s h m i
  Step-IsAccounted {s = s} (rollback restore i) h = rollback_fetch-IsAccounted blocks s h restore i
  Step-IsAccounted {s = s} (finish result i) h = finish_fetch-IsAccounted blocks s h result i
  Step-IsAccounted {s = s} (activate indices t e) h =
      activate_reader-IsAccounted blocks s h indices {t = t} e
  Step-IsAccounted {s = s} (release_attempt indices) h =
      release_entry_attempt-IsAccounted blocks indices s h
  Step-IsAccounted {s = s} (release_block i) h = release_block_reader-IsAccounted blocks s h i
  Step-IsAccounted {s = s} (replay from to) h = add_replay_claims-IsAccounted blocks s h from to
  Step-IsAccounted {s = s} (fail reason) h = cancel-IsAccounted blocks s reason h

  Reach-IsAccounted :
      {s t : SourceBlockState}
      → Reach blocks window_bytes s t
      → IsAccounted blocks s
      → IsAccounted blocks t
  Reach-IsAccounted start h = h
  Reach-IsAccounted (later r st) h = Step-IsAccounted st (Reach-IsAccounted r h)

-- Laid out blocks have no more bytes than the source.
source_bytes-le :
    (size l lo : ℕ) (blocks : List SourceBlockRange)
    → lo ≤ l
    → Laid lo blocks
    → All (IsSmall size l) blocks
    → source_bytes blocks ≤ l - lo
unfolding block_len
source_bytes-le size l lo [] p h k = omega arith
source_bytes-le size l lo (b ∷ blocks) p h k =
    omega (arith, h.0, h.1, k.0.1, source_bytes-le size l b.end_exclusive blocks k.0.1 h.2 k.1)

-- For the blocks of a plan, whatever the tasks do and in whatever order: the committed bytes of the
-- window are the lengths of the blocks that are reserved, fetched or ready, the resident bytes those
-- of the blocks that are fetched or ready, which are the ones that hold a permit of the budget, of
-- their own length; a ready block is claimed, and after a failure every block is failed or released.
pub block_store-IsAccounted :
    (source_len : ℕ) (plans : List ZipEntryPlan) (block_bytes merge_gap_bytes : ℕ)
    (blocks : List SourceBlockRange) (window_bytes : ℕ) (s : SourceBlockState)
    → source_len ≤ u64_max
    → plan_source_blocks source_len plans block_bytes merge_gap_bytes ≡ ok blocks
    → Reach blocks window_bytes (new_state blocks plans) s
    → IsAccounted blocks s
block_store-IsAccounted l plans bytes gap blocks window_bytes s m h r =
    let laid = plan_source_blocks-Laid l plans bytes gap {blocks = blocks} h in
    let small = plan_source_blocks-IsSmall l plans bytes gap {blocks = blocks} h in
    let fits = source_bytes-le (max bytes 1) l 0 blocks (omega arith) laid small in
    Reach-IsAccounted blocks window_bytes (omega (arith, fits, m)) r
      (new_state-IsAccounted blocks plans)
