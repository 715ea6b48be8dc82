-- ===== src/Blocks.antt =====
-- rust/src/s3/archive/block_store.rs: the blocks in which the bytes of an archive are fetched. They
-- are planned from the spans of the planned entries, and found again by a position or a span.
pub mod Order
pub mod Cut
pub mod Lookup
pub mod Cover
use shin_bucket_deployment.Prelude.{
  ℕ, zero, suc, ◌+◌, ◌-◌, List, [], ◌∷◌, ◌++◌, map, Bool, true, false, ◌&&◌, ◌||◌, Option, none,
  some, min, max, ltb, leb, ◌==◌, if◌then◌else◌, Result, ok, err, saturating_add, get_elem?,
  partition_point, sort, range_from,
}
use shin_bucket_deployment.Planner.{ZipEntryPlan}

pub record SourceBlockRange : Type 0 where
  pub start : ℕ
  pub end_exclusive : ℕ

unfoldable pub block_len : SourceBlockRange → ℕ
block_len block = block.end_exclusive - block.start

-- A start and an exclusive end.
abbrev pub Span : Type 0
Span = ℕ × ℕ

pub data BlockPlanError : Type 0 where
  blocks_overlap : BlockPlanError

-- The order of `sort_unstable` on pairs.
unfoldable pub span_before : Span → Span → Bool
span_before a b = ltb a.0 b.0 || (a.0 == b.0 && leb a.1 b.1)

-- The `filter_map`: the spans of the plans, cut at the end of the source.
unfoldable pub clip_spans : ℕ → List ZipEntryPlan → List Span
clip_spans source_len [] = []
clip_spans source_len (plan ∷ plans) =
    let start = min plan.source_offset source_len in
    let end = min plan.source_span_end_exclusive source_len in
    let rest = clip_spans source_len plans in if ltb start end then (start, end) ∷ rest else rest

-- The loop over the sorted spans, from the span that was pushed last.
unfoldable pub coalesce_from : ℕ → ℕ → ℕ → ℕ → List Span → List Span
coalesce_from block_size merge_gap current_start current_end [] = (current_start, current_end) ∷ []
coalesce_from block_size merge_gap current_start current_end (span ∷ spans) =
    let proposed_end = max current_end span.1 in
    let extended = coalesce_from block_size merge_gap current_start proposed_end spans in
    let pushed = coalesce_from block_size merge_gap span.0 span.1 spans in
    if leb (span.0 - current_end) merge_gap && leb (proposed_end - current_start) block_size
    then extended
    else (current_start, current_end) ∷ pushed

unfoldable pub coalesce_spans : ℕ → ℕ → List Span → List Span
unfolding coalesce_from
coalesce_spans block_size merge_gap [] = []
coalesce_spans block_size merge_gap (span ∷ spans) =
    coalesce_from block_size merge_gap span.0 span.1 spans

-- The `while`: one span is cut into blocks. As many turns as the span has bytes are enough.
unfoldable pub cut_span : ℕ → ℕ → ℕ → ℕ → List SourceBlockRange
cut_span block_size end zero block_start = []
cut_span block_size end (suc fuel) block_start =
    let block_end_exclusive = min (saturating_add block_start block_size) end in
    let rest = cut_span block_size end fuel block_end_exclusive in
    if ltb block_start end
    then record { start = block_start; end_exclusive = block_end_exclusive } ∷ rest
    else []

unfoldable pub cut_spans : ℕ → List Span → List SourceBlockRange
unfolding cut_span
cut_spans block_size [] = []
cut_spans block_size (span ∷ spans) =
    cut_span block_size span.1 (span.1 - span.0) span.0 ++ cut_spans block_size spans

unfoldable pub blocks_non_empty : List SourceBlockRange → Bool
blocks_non_empty [] = true
blocks_non_empty (block ∷ blocks) = ltb block.start block.end_exclusive && blocks_non_empty blocks

-- The `windows(2)`.
unfoldable pub blocks_disjoint : List SourceBlockRange → Bool
blocks_disjoint [] = true
blocks_disjoint (a ∷ []) = true
blocks_disjoint (a ∷ b ∷ blocks) = leb a.end_exclusive b.start && blocks_disjoint (b ∷ blocks)

unfoldable pub plan_source_blocks :
    ℕ → List ZipEntryPlan → ℕ → ℕ → Result BlockPlanError (List SourceBlockRange)
unfolding span_before clip_spans coalesce_spans cut_spans blocks_non_empty blocks_disjoint
plan_source_blocks source_len plans block_bytes merge_gap_bytes =
    let block_size = max block_bytes 1 in
    let spans = sort span_before (clip_spans source_len plans) in
    let blocks = cut_spans block_size (coalesce_spans block_size merge_gap_bytes spans) in
    if source_len == 0
    then ok []
    else if blocks_non_empty blocks && blocks_disjoint blocks
    then ok blocks
    else err blocks_overlap

-- The test of the last block that starts no later than the position.
unfoldable pub block_holding : ℕ → ℕ → Option SourceBlockRange → Option ℕ
block_holding position block_index none = none
block_holding position block_index (some block) =
    if ltb position block.end_exclusive then some block_index else none

unfoldable pub block_at_partition : List SourceBlockRange → ℕ → ℕ → Option ℕ
unfolding block_holding
block_at_partition blocks position zero = none
block_at_partition blocks position (suc block_index) =
    block_holding position block_index (get_elem? blocks block_index)

unfoldable pub block_index_at : List SourceBlockRange → ℕ → Option ℕ
unfolding block_at_partition
block_index_at blocks position =
    block_at_partition blocks position (partition_point (λ block. leb block.start position) blocks)

unfoldable pub block_indices_for_span : List SourceBlockRange → ℕ → ℕ → List ℕ
block_indices_for_span blocks start end_exclusive =
    let first = partition_point (λ block. leb block.end_exclusive start) blocks in
    let past_last = partition_point (λ block. ltb block.start end_exclusive) blocks in
    if leb end_exclusive start then [] else range_from first (max past_last first - first)
