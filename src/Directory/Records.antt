-- ===== src/Directory/Records.antt =====
-- The end records of rust/src/s3/archive/directory.rs: their fields, the search for the end of
-- central directory, and what is accepted of it and of the ZIP64 record.
use shin_bucket_deployment.Prelude.{
  ℕ, ◌+◌, ◌*◌, [], ◌∷◌, Bool, not, ◌&&◌, ◌||◌, Option, none, some, Bytes, length, take, drop,
  bytes_eq, leb, ◌==◌, min, if◌then◌else◌, Result, ok, err, ◌>>=◌, ensure, ok_or, checked_add,
  checked_sub, checked_mul, u16_max, u32_max,
}
use shin_bucket_deployment.Directory.{
  DirectoryError, SourceClient, Preloaded, Loaded, cached_span, field_overflowed,
  field_beyond_bytes, invalid_end_signature, split_archive, split_entry_counts, split_zip64,
  invalid_zip64_signature, short_zip64_record, zip64_overflowed, zip64_not_bound,
  split_zip64_entry_counts, records_disagree, sentinels_without_zip64, directory_overflowed,
  directory_not_bound, entry_count_overflowed, too_many_entries, estimate_overflowed,
}

abbrev pub eocd_len : ℕ
eocd_len = 22

abbrev pub zip64_locator_signature : Bytes
zip64_locator_signature = 0x50 ∷ 0x4b ∷ 0x06 ∷ 0x07 ∷ []

abbrev pub zip64_eocd_signature : Bytes
zip64_eocd_signature = 0x50 ∷ 0x4b ∷ 0x06 ∷ 0x06 ∷ []

-- `from_le_bytes`.
unfoldable pub from_le : Bytes → ℕ
from_le [] = 0
from_le (b ∷ bytes) = b + 256 * from_le bytes

unfoldable pub field_at : ℕ → Bytes → ℕ → Result DirectoryError Bytes
field_at n bytes offset = ok_or (checked_add offset n) field_overflowed >>= λ end.
    if leb end (length bytes) then ok (take n (drop offset bytes)) else err field_beyond_bytes

-- `u16_at`, `u32_at` and `u64_at`, for 2, 4 and 8 bytes.
unfoldable pub number_at : ℕ → Bytes → ℕ → Result DirectoryError ℕ
unfolding field_at from_le
number_at n bytes offset = field_at n bytes offset >>= λ field. ok (from_le field)

pub record ZipDirectoryInfo : Type 0 where
  pub central_directory_start : ℕ
  pub central_directory_size : ℕ
  pub entry_count : ℕ
  pub comment_len : ℕ

unfoldable pub validate_directory_info : ZipDirectoryInfo → ℕ → ℕ → Result DirectoryError (Unit {0})
validate_directory_info info boundary source_len =
    ok_or (checked_add info.central_directory_start info.central_directory_size)
      directory_overflowed
    >>= λ directory_end.
        ensure (directory_end == boundary && leb directory_end source_len) directory_not_bound
        >>= λ _. ok_or (checked_mul info.entry_count 46) entry_count_overflowed >>= λ minimum_size.
            ensure (leb minimum_size info.central_directory_size) too_many_entries

unfoldable pub directory_memory_estimate : ZipDirectoryInfo → ℕ → Result DirectoryError ℕ
directory_memory_estimate info preloaded_bytes =
    let parser_buffer = min info.central_directory_start (20 * 1024 * 1024) in
    ok_or (checked_mul info.central_directory_size 4) estimate_overflowed >>= λ decoded.
    ok_or (checked_mul info.entry_count 512) estimate_overflowed >>= λ metadata.
    ok_or (checked_mul info.comment_len 2) estimate_overflowed >>= λ comment.
    ok_or (checked_add preloaded_bytes parser_buffer) estimate_overflowed >>= λ a.
    ok_or (checked_add a decoded) estimate_overflowed >>= λ b.
    ok_or (checked_add b metadata) estimate_overflowed >>= λ c.
    ok_or (checked_add c comment) estimate_overflowed

-- `compatible_u16` and `compatible_u32`, with the largest number of the width.
unfoldable pub is_compatible : ℕ → ℕ → ℕ → Bool
is_compatible largest legacy extended = legacy == largest || legacy == extended

-- The fields of the end of central directory.
pub record EndRecord : Type 0 where
  pub entries : ℕ
  pub directory_size : ℕ
  pub directory_start : ℕ
  pub comment_len : ℕ

unfoldable pub parse_end_record : Bytes → Result DirectoryError EndRecord
unfolding number_at
parse_end_record eocd = number_at 4 eocd 0 >>= λ signature.
    ensure (signature == 0x06054b50) invalid_end_signature >>= λ _. number_at 2 eocd 4 >>= λ disk.
    number_at 2 eocd 6 >>= λ directory_disk. number_at 2 eocd 8 >>= λ entries_on_disk.
    number_at 2 eocd 10 >>= λ entries. number_at 4 eocd 12 >>= λ directory_size.
    number_at 4 eocd 16 >>= λ directory_start. number_at 2 eocd 20 >>= λ comment_len.
    ensure (disk == 0 && directory_disk == 0) split_archive >>= λ _.
    ensure (entries_on_disk == entries) split_entry_counts >>= λ _. ok (record {
      entries = entries;
      directory_size = directory_size;
      directory_start = directory_start;
      comment_len = comment_len;
    })

-- The offset of the ZIP64 record, from its locator.
unfoldable pub parse_locator : Bytes → Result DirectoryError ℕ
unfolding number_at
parse_locator locator = number_at 4 locator 4 >>= λ disk. ensure (disk == 0) split_zip64 >>= λ _.
    number_at 4 locator 16 >>= λ disks.
    ensure (disks == 1) split_zip64 >>= λ _. number_at 8 locator 8

-- The ZIP64 record ends at its locator.
unfoldable pub check_zip64_end : ℕ → ℕ → Bytes → Result DirectoryError (Unit {0})
unfolding number_at
check_zip64_end locator_offset zip64_offset bytes =
    ensure (bytes_eq (take 4 bytes) zip64_eocd_signature) invalid_zip64_signature >>= λ _.
    number_at 8 bytes 4 >>= λ record_size. ensure (leb 44 record_size) short_zip64_record >>= λ _.
    ok_or (checked_add zip64_offset 12) zip64_overflowed >>= λ fixed_end.
    ok_or (checked_add fixed_end record_size) zip64_overflowed >>= λ record_end.
    ensure (record_end == locator_offset) zip64_not_bound

-- Its fields, which agree with those of the end record.
unfoldable pub zip64_fields : EndRecord → Bytes → Result DirectoryError ZipDirectoryInfo
unfolding number_at is_compatible
zip64_fields end_record bytes = number_at 4 bytes 16 >>= λ disk.
    number_at 4 bytes 20 >>= λ directory_disk.
    ensure (disk == 0 && directory_disk == 0) split_zip64 >>= λ _.
    number_at 8 bytes 24 >>= λ entries_on_disk. number_at 8 bytes 32 >>= λ entries.
    number_at 8 bytes 40 >>= λ directory_size. number_at 8 bytes 48 >>= λ directory_start.
    ensure (entries_on_disk == entries) split_zip64_entry_counts >>= λ _.
    ensure
      (is_compatible u16_max end_record.entries entries
        && (is_compatible u32_max end_record.directory_size directory_size
            && is_compatible u32_max end_record.directory_start directory_start))
      records_disagree
    >>= λ _. ok (record {
      central_directory_start = directory_start;
      central_directory_size = directory_size;
      entry_count = entries;
      comment_len = end_record.comment_len;
    })

unfoldable pub parse_zip64_record :
    EndRecord → ℕ → ℕ → Bytes → Result DirectoryError (ZipDirectoryInfo × ℕ)
unfolding check_zip64_end zip64_fields
parse_zip64_record end_record locator_offset zip64_offset bytes =
    check_zip64_end locator_offset zip64_offset bytes >>= λ _.
    zip64_fields end_record bytes >>= λ info. ok (info, zip64_offset)

-- The end record alone, which must not hold a sentinel.
abbrev pub has_no_sentinel : EndRecord → Bool
has_no_sentinel end_record =
    not (end_record.entries == u16_max)
    && (not (end_record.directory_size == u32_max) && not (end_record.directory_start == u32_max))

unfoldable pub legacy_info : EndRecord → ℕ → Result DirectoryError (ZipDirectoryInfo × ℕ)
legacy_info end_record eocd_offset =
    ensure (has_no_sentinel end_record) sentinels_without_zip64 >>= λ _. ok (
      record {
        central_directory_start = end_record.directory_start;
        central_directory_size = end_record.directory_size;
        entry_count = end_record.entries;
        comment_len = end_record.comment_len;
      },
      eocd_offset,
    )

module _ (source : SourceClient) (chunk_size budget_limit : ℕ) where
  -- The locator before the end record, if it has its signature.
  unfoldable pub find_locator : Option ℕ → Preloaded → Loaded (Option (ℕ × Bytes))
  unfolding cached_span
  find_locator none preloaded = ok (none, preloaded)
  find_locator (some offset) preloaded =
      cached_span source chunk_size budget_limit offset 20 preloaded >>= λ read. ok (
        if bytes_eq (take 4 read.0) zip64_locator_signature then some (offset, read.0) else none,
        read.1,
      )

  unfoldable pub info_and_boundary :
      EndRecord → ℕ → Option (ℕ × Bytes) → Preloaded → Loaded (ZipDirectoryInfo × ℕ)
  unfolding parse_locator parse_zip64_record legacy_info cached_span
  info_and_boundary end_record eocd_offset none preloaded =
      legacy_info end_record eocd_offset >>= λ info. ok (info, preloaded)
  info_and_boundary end_record eocd_offset (some (locator_offset, locator)) preloaded =
      parse_locator locator >>= λ zip64_offset.
      cached_span source chunk_size budget_limit zip64_offset 56 preloaded >>= λ read.
      parse_zip64_record end_record locator_offset zip64_offset read.0 >>= λ info. ok (info, read.1)

  unfoldable pub read_directory_info : ℕ → Preloaded → Loaded ZipDirectoryInfo
  unfolding cached_span parse_end_record find_locator info_and_boundary validate_directory_info
  read_directory_info eocd_offset preloaded =
      cached_span source chunk_size budget_limit eocd_offset eocd_len preloaded >>= λ eocd.
      parse_end_record eocd.0 >>= λ end_record.
      find_locator (checked_sub eocd_offset 20) eocd.1 >>= λ locator.
      info_and_boundary end_record eocd_offset locator.0 locator.1 >>= λ info.
      validate_directory_info info.0.0 info.0.1 source.len >>= λ _. ok (info.0.0, info.1)
