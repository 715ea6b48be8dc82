-- ===== src/SourceWindow.antt =====
-- rust/src/s3.rs: how many bytes of an archive are kept in memory, and how many ranges are fetched at
-- once, from the memory of the function.
use native.Mathlib.Nat.{mul-pos}
use shin_bucket_deployment.Prelude.{
  ℕ, ◌+◌, ◌-◌, ◌*◌, ◌/◌, ◌≤◌, ◌<◌, Option, none, some, ◌≡◌, ◌⊎◌, arith, max, min, leb, ltb, u64_max,
  checked_mul, saturating_add, saturating_mul, if◌then◌else◌, true,
}
use shin_bucket_deployment.Deployment.{RuntimeOptions}

abbrev pub adaptive_cache_base_overhead : ℕ
adaptive_cache_base_overhead = 64 * 1024 * 1024

abbrev pub adaptive_cache_worker_overhead : ℕ
adaptive_cache_worker_overhead = 12 * 1024 * 1024

abbrev pub adaptive_cache_file_overhead : ℕ
adaptive_cache_file_overhead = 2 * 1024

abbrev pub adaptive_cache_large_threshold : ℕ
adaptive_cache_large_threshold = 512 * 1024 * 1024

abbrev pub adaptive_cache_large_rss_slack : ℕ
adaptive_cache_large_rss_slack = 384 * 1024 * 1024

abbrev pub adaptive_cache_max_window_bytes : ℕ
adaptive_cache_max_window_bytes = 512 * 1024 * 1024

unfoldable pub adaptive_source_get_concurrency : ℕ → ℕ
adaptive_source_get_concurrency available_memory_mb = max 1 (min (available_memory_mb / 256) 8)

-- `reserved`: what the workers, the files and the ranges in flight may take.
unfoldable pub reserved_bytes : ℕ → ℕ → ℕ → ℕ → ℕ
reserved_bytes concurrency zip_file_count source_block_bytes source_get_concurrency =
    saturating_add
      (saturating_add
        (saturating_add adaptive_cache_base_overhead
          (saturating_mul (max concurrency 1) adaptive_cache_worker_overhead))
        (saturating_mul zip_file_count adaptive_cache_file_overhead))
      (saturating_mul (max source_get_concurrency 1) source_block_bytes)

-- `minimum_feed_capacity`: the ranges in flight, but no more than the archive.
unfoldable pub minimum_feed_capacity : ℕ → ℕ → ℕ → ℕ
minimum_feed_capacity source_zip_bytes source_block_bytes source_get_concurrency =
    min (saturating_mul (max source_block_bytes 1) (max source_get_concurrency 1))
      (max source_zip_bytes 1)

-- A large window leaves room for what the allocator holds besides, and no window is larger than the
-- limit.
unfoldable pub limit_capacity : ℕ → ℕ
limit_capacity capacity =
    min
      (if ltb adaptive_cache_large_threshold capacity
        then capacity - adaptive_cache_large_rss_slack
        else capacity)
      adaptive_cache_max_window_bytes

abbrev window_of_memory : Option ℕ → ℕ → ℕ → ℕ → ℕ
window_of_memory none source_zip_bytes reserved feed = source_zip_bytes
window_of_memory (some available_memory_bytes) source_zip_bytes reserved feed =
    max (limit_capacity (min (available_memory_bytes - reserved) source_zip_bytes)) feed

unfoldable pub adaptive_source_window_bytes : ℕ → ℕ → ℕ → ℕ → ℕ → ℕ → ℕ
unfolding reserved_bytes minimum_feed_capacity limit_capacity
adaptive_source_window_bytes available_memory_mb source_zip_bytes concurrency zip_file_count
      source_block_bytes source_get_concurrency =
    window_of_memory (checked_mul available_memory_mb (1024 * 1024)) source_zip_bytes
      (reserved_bytes concurrency zip_file_count source_block_bytes source_get_concurrency)
      (minimum_feed_capacity source_zip_bytes source_block_bytes source_get_concurrency)

-- `source_window_bytes_for_archive`: the configured window, or the adaptive one.
abbrev configured_or : Option ℕ → ℕ → ℕ
configured_or none adaptive = adaptive
configured_or (some bytes) adaptive = bytes

unfoldable pub source_window_bytes_for_archive : RuntimeOptions → ℕ → ℕ → ℕ
unfolding adaptive_source_window_bytes
source_window_bytes_for_archive runtime source_zip_bytes zip_file_count =
    configured_or runtime.source_window_bytes (
      adaptive_source_window_bytes (max (runtime.source_memory_budget_bytes / (1024 * 1024)) 1)
        source_zip_bytes runtime.max_parallel_transfers zip_file_count runtime.source_block_bytes
        runtime.source_get_concurrency)

limit_capacity-le :
    (capacity : ℕ) → (limit_capacity capacity ≤ capacity) × (limit_capacity capacity ≤ 536870912)
unfolding limit_capacity
limit_capacity-le capacity = (ground arith, ground arith)

-- What the workers, the files and the ranges in flight may take, without a limit: 64 MiB, 12 MiB for
-- each worker, 2 KiB for each file, and the ranges.
abbrev pub memory_besides : ℕ → ℕ → ℕ → ℕ → ℕ
memory_besides concurrency files block get =
    67108864 + max concurrency 1 * 12582912 + files * 2048 + max get 1 * block

-- The saturating sum is the sum, or as large as it gets.
reserved_bytes-exact :
    (concurrency files block get : ℕ)
    → (reserved_bytes concurrency files block get ≡ memory_besides concurrency files block get)
      ⊎ (u64_max ≤ reserved_bytes concurrency files block get)
unfolding reserved_bytes
reserved_bytes-exact concurrency files block get =
    sum (max concurrency 1 * 12582912) (files * 2048) (max get 1 * block)
  where
    sum :
        (workers kept flying : ℕ)
        → (saturating_add
              (saturating_add (saturating_add 67108864 (min workers u64_max)) (min kept u64_max))
              (min flying u64_max)
            ≡ 67108864 + workers + kept + flying)
          ⊎ (u64_max
              ≤ saturating_add
                  (saturating_add
                    (saturating_add 67108864 (min workers u64_max))
                    (min kept u64_max))
                  (min flying u64_max))
    sum workers kept flying = ground arith

-- The ranges in flight, without a limit, or the archive.
minimum_feed_capacity-exact :
    (zip block get : ℕ)
    → zip ≤ u64_max
    → minimum_feed_capacity zip block get ≡ min (max block 1 * max get 1) (max zip 1)
unfolding minimum_feed_capacity
minimum_feed_capacity-exact zip block get h = limited (max block 1 * max get 1)
  where
    limited : (flying : ℕ) → min (min flying u64_max) (max zip 1) ≡ min flying (max zip 1)
    limited flying = ground (arith, h)

window_cases :
    (memory zip reserved besides feed : ℕ)
    → 0 < feed
    → feed ≤ max zip 1
    → memory ≤ u64_max
    → (reserved ≡ besides) ⊎ (u64_max ≤ reserved)
    → let window = max (limit_capacity (min (memory - reserved) zip)) feed in
      (feed ≤ window)
      × (window ≤ max zip 1)
      × ((window ≡ feed) ⊎ ((besides + window ≤ memory) × (window ≤ 536870912)))
window_cases memory zip reserved besides feed p h m r =
    let (l, c) = limit_capacity-le (min (memory - reserved) zip) in ground (arith, l, c, h, p, m, r)

-- Where the archive's size and the memory in bytes fit in 64 bits, the adaptive window holds as many
-- blocks as are fetched at once (one at least, of a byte at least) or the whole archive; it is not
-- larger than the archive, or one byte; and unless it is just those blocks, it has 512 MiB at most and
-- fits in the memory next to 64 MiB, 12 MiB for each worker (one at least), 2 KiB for each file and
-- the blocks that are fetched at once.
pub adaptive_source_window-fits :
    (mb zip concurrency files block get : ℕ)
    → zip ≤ u64_max
    → mb * (1024 * 1024) ≤ u64_max
    → let window = adaptive_source_window_bytes mb zip concurrency files block get in
      let flying = min (max block 1 * max get 1) (max zip 1) in
      (flying ≤ window)
      × (window ≤ max zip 1)
      × ((window ≡ flying)
          ⊎ ((memory_besides concurrency files block get + window ≤ mb * (1024 * 1024))
              × (window ≤ 536870912)))
adaptive_source_window-fits mb zip concurrency files block get z h =
    let f = minimum_feed_capacity-exact zip block get z in
    let p : 0 < max block 1 * max get 1 = mul-pos (omega arith) (omega arith) in
    let c =
      window_cases (mb * (1024 * 1024)) zip (reserved_bytes concurrency files block get)
        (memory_besides concurrency files block get) (min (max block 1 * max get 1) (max zip 1))
        (omega (arith, p)) (omega arith) h (reserved_bytes-exact concurrency files block get) in
    let e : leb (mb * (1024 * 1024)) u64_max ≡ true = ground (arith, h) in
    unfold adaptive_source_window_bytes in rw e (rw f c)
