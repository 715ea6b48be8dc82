-- ===== src/Directory/Locate.antt =====
-- The search for the end of central directory, from the end of the source backwards, in
-- rust/src/s3/archive/directory.rs.
use shin_bucket_deployment.Prelude.{
  ℕ, zero, suc, ◌∷◌, [], ◌+◌, ◌-◌, Bool, false, not, ◌||◌, Option, none, some, Bytes, length, take,
  drop, bytes_eq, ltb, leb, ◌==◌, min, max, if◌then◌else◌, Result, ok, err, ◌>>=◌, ok_or,
  saturating_add, checked_add, u16_max,
}
use shin_bucket_deployment.Directory.{
  DirectoryError, SourceClient, Preloaded, Loaded, load_block_for_offset, cached_span, get_block,
  block_not_retained, span_overflowed, no_end_record,
}
use shin_bucket_deployment.Directory.Records.{eocd_len, number_at}

abbrev pub eocd_signature : Bytes
eocd_signature = 0x50 ∷ 0x4b ∷ 0x05 ∷ 0x06 ∷ []

abbrev pub is_len : ℕ → Result DirectoryError ℕ → Bool
is_len source_len (ok end) = end == source_len
is_len source_len (err e) = false

-- A record at an offset with a comment ends the source.
unfoldable pub ends_source : ℕ → ℕ → ℕ → Bool
ends_source source_len absolute comment_len = is_len source_len (
    ok_or (checked_add absolute eocd_len) span_overflowed >>= λ end.
    ok_or (checked_add end comment_len) span_overflowed)

abbrev pub search_start : ℕ → ℕ
search_start source_len = source_len - (eocd_len + u16_max)

module _ (source : SourceClient) (chunk_size budget_limit : ℕ) where
  -- The candidates before a position, the last one first.
  unfoldable pub scan_back : Bytes → ℕ → ℕ → Preloaded → Loaded (Option ℕ)
  unfolding cached_span number_at ends_source
  scan_back candidate candidate_start zero preloaded = ok (none, preloaded)
  scan_back candidate candidate_start (suc relative) preloaded =
      let absolute = candidate_start + relative in
      let rest : Preloaded → Loaded (Option ℕ) = scan_back candidate candidate_start relative in
      if ltb (source.len - eocd_len) absolute
        || not (bytes_eq (take 4 (drop relative candidate)) eocd_signature)
      then rest preloaded
      else (cached_span source chunk_size budget_limit absolute eocd_len preloaded >>= λ header.
          number_at 2 header.0 20 >>= λ comment_len.
          if ends_source source.len absolute comment_len
          then ok (some absolute, header.1)
          else rest header.1)

  -- One turn: the record that the block before a position has, and the start of the block.
  unfoldable pub probe_block : ℕ → Preloaded → Loaded (Option ℕ × ℕ)
  unfolding load_block_for_offset get_block cached_span scan_back
  probe_block scan_end preloaded =
      load_block_for_offset source chunk_size budget_limit (scan_end - 1) preloaded >>= λ loaded.
      ok_or (get_block loaded.1.blocks loaded.0) block_not_retained >>= λ block.
      ok_or (checked_add loaded.0 (length block)) span_overflowed >>= λ block_end.
      let candidate_start = max loaded.0 (search_start source.len) in
      let candidate_end = min block_end (saturating_add (source.len - eocd_len) 4) in
      let overlap_end = min source.len (saturating_add candidate_end 3) in
      cached_span source chunk_size budget_limit candidate_start (overlap_end - candidate_start)
        loaded.1
      >>= λ candidate.
          scan_back candidate.0 candidate_start (length candidate.0 - 3) candidate.1 >>= λ found.
          ok ((found.0, loaded.0), found.1)

  abbrev pub after_probe : (ℕ → Preloaded → Loaded ℕ) → Option ℕ → ℕ → Preloaded → Loaded ℕ
  after_probe next (some offset) start p = ok (offset, p)
  after_probe next none start p =
      if leb start (search_start source.len) || start == 0 then err no_end_record else next start p

  -- The loop. Its fuel is at least the position that is left, which a turn lowers.
  unfoldable pub locate_loop : ℕ → ℕ → Preloaded → Loaded ℕ
  unfolding probe_block
  locate_loop zero scan_end preloaded = err no_end_record
  locate_loop (suc fuel) scan_end preloaded = probe_block scan_end preloaded >>= λ probed.
      after_probe (locate_loop fuel) probed.0.0 probed.0.1 probed.1

  unfoldable pub locate_eocd : Preloaded → Loaded ℕ
  unfolding locate_loop
  locate_eocd preloaded = locate_loop source.len source.len preloaded
