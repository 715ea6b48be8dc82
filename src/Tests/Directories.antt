-- ===== src/Tests/Directories.antt =====
-- Runs of the directory reader and of the catalog's checks (rust/src/s3/archive/directory.rs,
-- rust/src/s3/planner.rs): an archive of one file, and a catalog of another.
use shin_bucket_deployment.Prelude.{
  ℕ, ◌+◌, ◌-◌, ◌*◌, ◌≤◌, List, [], ◌∷◌, ◌++◌, Bytes, bytes, some, ◌≡◌, refl, arith, length, take,
  drop, ok,
}
use shin_bucket_deployment.Deployment.{ArchiveExpansionLimits, TrustedEntryIntegrity}
use shin_bucket_deployment.Directory.{SourceClient, Preloaded, cached_span}
use shin_bucket_deployment.Directory.Records.{
  EndRecord, ZipDirectoryInfo, eocd_len, parse_end_record, read_directory_info,
}
use shin_bucket_deployment.Directory.Spans.{IsServing, IsKept, cached_span-exact}
use shin_bucket_deployment.Directory.Locate.{locate_loop, locate_eocd}
use shin_bucket_deployment.Directory.Search.{IsEndRecord, locate_eocd-IsEndRecord}
use shin_bucket_deployment.Directory.Bounds.{read_directory_info_bounds}
use shin_bucket_deployment.Directory.RoundTrip.{
  encode_end_record, parse_end_record-encode_end_record,
}
use shin_bucket_deployment.Planner.{StoredZipEntry, stored}
use shin_bucket_deployment.Planner.Catalog.{EmbeddedCatalog}

-- The directory takes the first 46 bytes; the end record has a comment of two.
abbrev the_record : EndRecord
the_record = record { entries = 1; directory_size = 46; directory_start = 0; comment_len = 2 }

abbrev the_directory : Bytes
the_directory = bytes "PK..this stands for the header of a file.......46"

abbrev the_content : Bytes
the_content = take 46 the_directory ++ encode_end_record the_record (bytes "hi")

abbrev the_source : SourceClient
the_source = record {
  len = length the_content;
  get_range = λ start end. ok (take (end - start + 1) (drop start the_content));
}

abbrev nothing_kept : Preloaded
nothing_kept = record { blocks = []; bytes = 0 }

the_source-IsServing : IsServing the_source the_content
the_source-IsServing = record { served = λ start end got h. cc; whole = refl }

nothing_kept-IsKept : IsKept the_content 100 nothing_kept
nothing_kept-IsKept = record { parts = tt; counted = omega arith; limited = omega arith }

abbrev block_at : ℕ → ℕ × Bytes
block_at start = (start, take 16 (drop start the_content))

-- A span over two blocks of 16 bytes.
abbrev span_blocks : Preloaded
span_blocks = record { blocks = block_at 48 ∷ block_at 32 ∷ []; bytes = 32 }

span_read :
    cached_span the_source 16 100 40 20 nothing_kept
    ≡ ok (take 20 (drop 40 the_content), span_blocks)
unfolding cached_span
span_read = refl

cached_span-exact_example :
    (take 20 (drop 40 the_content) ≡ take 20 (drop 40 the_content))
    × (length (take 20 (drop 40 the_content)) ≡ 20)
    × IsKept the_content 100 span_blocks
cached_span-exact_example =
    cached_span-exact the_source 16 100 the_content 40 20 nothing_kept span_blocks
      (take 20 (drop 40 the_content)) the_source-IsServing nothing_kept-IsKept span_read

abbrev the_info : ZipDirectoryInfo
the_info = record {
  central_directory_start = 0;
  central_directory_size = 46;
  entry_count = 1;
  comment_len = 2;
}

abbrev info_blocks : Preloaded
info_blocks = record {
  blocks = block_at 16 ∷ block_at 64 ∷ block_at 48 ∷ block_at 32 ∷ [];
  bytes = 54;
}

info_read : read_directory_info the_source 16 100 46 nothing_kept ≡ ok (the_info, info_blocks)
unfolding read_directory_info
info_read = refl

read_directory_info_bounds_example : (0 + 46 ≤ 46) × (46 + eocd_len ≤ 70) × (46 * 1 ≤ 46)
read_directory_info_bounds_example =
    read_directory_info_bounds the_source 16 100 46 nothing_kept info_blocks the_info info_read

parse_end_record-encode_end_record_example :
    parse_end_record (encode_end_record the_record (bytes "hi")) ≡ ok the_record
parse_end_record-encode_end_record_example =
    parse_end_record-encode_end_record the_record (bytes "hi") (omega arith) (omega arith)
      (omega arith) (omega arith)

abbrev the_limits : ArchiveExpansionLimits
the_limits = record { max_uncompressed_entry_bytes = 1000; max_compression_ratio = 10 }

abbrev the_entries : List StoredZipEntry
the_entries =
    record {
      filename = some (bytes "a/page.html");
      compression = stored;
      header_offset = 0;
      compressed_size = 7;
      uncompressed_size = 7;
      crc32 = 1;
    }
    ∷ record {
      filename = some (bytes "a/");
      compression = stored;
      header_offset = 60;
      compressed_size = 0;
      uncompressed_size = 0;
      crc32 = 0;
    }
    ∷ []

abbrev the_integrity : TrustedEntryIntegrity
the_integrity = record { size = 7; md5 = bytes "0123456789abcdef0123456789abcdef" }

abbrev the_catalog : EmbeddedCatalog
the_catalog = record {
  version = 1;
  entries = record { path = bytes "a/page.html"; size = 7; md5 = the_integrity.md5 } ∷ [];
}

abbrev search_blocks_all : Preloaded
search_blocks_all = record { blocks = block_at 32 ∷ block_at 48 ∷ block_at 64 ∷ []; bytes = 38 }

-- The end record starts two blocks before the last one.
record_located : locate_loop the_source 16 100 71 70 nothing_kept ≡ ok (46, search_blocks_all)
unfolding locate_loop
record_located = refl

locate_eocd-IsEndRecord_example :
    (locate_eocd the_source 16 100 nothing_kept ≡ ok (46, search_blocks_all))
    × IsEndRecord the_content 46
    × IsKept the_content 100 search_blocks_all
locate_eocd-IsEndRecord_example =
    locate_eocd-IsEndRecord the_source 16 100 the_content 1 46 nothing_kept search_blocks_all
      the_source-IsServing nothing_kept-IsKept (omega arith) record_located
