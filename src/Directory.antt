-- ===== src/Directory.antt =====
-- rust/src/s3/archive/directory.rs: how the end records and the bounds of an archive's central
-- directory are read, through blocks that are fetched once and kept.
pub mod Records
pub mod Spans
pub mod Bounds
pub mod RoundTrip
pub mod Locate
pub mod Search
use shin_bucket_deployment.Prelude.{
  ℕ, zero, suc, ◌+◌, ◌-◌, ◌%◌, List, [], ◌∷◌, ◌++◌, Bool, true, false, Option, none, some, Bytes,
  length, take, drop, ltb, leb, ◌==◌, min, max, if◌then◌else◌, Result, ok, err, ◌>>=◌, ensure,
  ok_or, saturating_add, checked_add,
}

pub data DirectoryError : Type 0 where
  offset_outside_source preloaded_overflowed above_budget read_failed : DirectoryError
  span_overflowed span_beyond_source block_not_retained no_progress : DirectoryError
  field_overflowed field_beyond_bytes : DirectoryError
  too_short no_end_record invalid_end_signature split_archive split_entry_counts : DirectoryError
  split_zip64 invalid_zip64_signature short_zip64_record zip64_overflowed : DirectoryError
  zip64_not_bound split_zip64_entry_counts records_disagree sentinels_without_zip64 : DirectoryError
  directory_overflowed directory_not_bound entry_count_overflowed too_many_entries : DirectoryError
  estimate_overflowed : DirectoryError

-- The client of one source: its length, and the bytes from an offset to another, inclusive.
pub record SourceClient : Type 0 where
  pub len : ℕ
  pub get_range : ℕ → ℕ → Result DirectoryError Bytes

-- The blocks that were fetched, by their starts, and their bytes in all.
pub record Preloaded : Type 0 where
  pub blocks : List (ℕ × Bytes)
  pub bytes : ℕ

unfoldable pub get_block : List (ℕ × Bytes) → ℕ → Option Bytes
get_block [] start = none
get_block (block ∷ blocks) start =
    let rest = get_block blocks start in if block.0 == start then some block.1 else rest

-- `offset / chunk_size * chunk_size`, of rust/src/s3/archive/range_reader.rs.
unfoldable pub align_down : ℕ → ℕ → ℕ
align_down offset chunk_size = offset - offset % chunk_size

abbrev pub Loaded : Type 0 → Type 0
Loaded A = Result DirectoryError (A × Preloaded)

module _ (source : SourceClient) (chunk_size budget_limit : ℕ) where
  -- The fetch of a block that is not there yet.
  unfoldable pub fetch_block : ℕ → Preloaded → Loaded ℕ
  fetch_block start preloaded =
      let end = min (source.len - 1) (saturating_add start (max chunk_size 1 - 1)) in
      ok_or (checked_add preloaded.bytes (end - start + 1)) preloaded_overflowed >>= λ projected.
      ensure (leb projected budget_limit) above_budget >>= λ _.
      source.get_range start end >>= λ bytes.
      ok (start, record { blocks = (start, bytes) ∷ preloaded.blocks; bytes = projected })

  abbrev kept_or_fetched : Option Bytes → ℕ → Preloaded → Loaded ℕ
  kept_or_fetched none start preloaded = fetch_block start preloaded
  kept_or_fetched (some block) start preloaded = ok (start, preloaded)

  unfoldable pub load_block_for_offset : ℕ → Preloaded → Loaded ℕ
  unfolding get_block align_down fetch_block
  load_block_for_offset offset preloaded =
      let start = align_down offset (max chunk_size 1) in
      ensure (ltb offset source.len) offset_outside_source >>= λ _.
      kept_or_fetched (get_block preloaded.blocks start) start preloaded

  -- One turn of the loop: the bytes that the block at the position has of the span.
  unfoldable pub next_bytes : ℕ → ℕ → Preloaded → Loaded Bytes
  unfolding load_block_for_offset get_block
  next_bytes position end preloaded = load_block_for_offset position preloaded >>= λ loaded.
      ok_or (get_block loaded.1.blocks loaded.0) block_not_retained >>= λ block.
      let relative = position - loaded.0 in
      let taken = min (end - position) (length block - relative) in
      ensure (ltb 0 taken) no_progress >>= λ _. ok (take taken (drop relative block), loaded.1)

  -- The loop. A turn takes a byte at least, so that as many turns as bytes are enough.
  unfoldable pub span_loop : ℕ → ℕ → Bytes → ℕ → Preloaded → Loaded Bytes
  unfolding next_bytes
  span_loop end zero output position preloaded = ok (output, preloaded)
  span_loop end (suc fuel) output position preloaded =
      let turn = next_bytes position end preloaded >>= λ next.
      span_loop end fuel (output ++ next.0) (position + length next.0) next.1 in
      if ltb position end then turn else ok (output, preloaded)

  unfoldable pub cached_span : ℕ → ℕ → Preloaded → Loaded Bytes
  unfolding span_loop
  cached_span start len preloaded = ok_or (checked_add start len) span_overflowed >>= λ end.
      ensure (leb end source.len) span_beyond_source >>= λ _. span_loop end len [] start preloaded
