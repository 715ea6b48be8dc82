-- ===== src/Tests/Memory.antt =====
-- A run of the source window (rust/src/s3.rs): 1 GiB of memory and an archive of 2 MB.
use shin_bucket_deployment.Prelude.{◌+◌, ◌*◌, ◌≤◌, ◌≡◌, ◌⊎◌, arith, max, min}
use shin_bucket_deployment.SourceWindow.{
  adaptive_source_window_bytes, memory_besides, adaptive_source_window-fits,
}

adaptive_source_window-fits_example :
    let window = adaptive_source_window_bytes 1024 2000000 8 100 65536 4 in
    let flying = min (65536 * 4) 2000000 in
    (flying ≤ window)
    × (window ≤ max 2000000 1)
    × ((window ≡ flying)
        ⊎ ((memory_besides 8 100 65536 4 + window ≤ 1024 * (1024 * 1024)) × (window ≤ 536870912)))
adaptive_source_window-fits_example =
    adaptive_source_window-fits 1024 2000000 8 100 65536 4 (omega arith) (omega arith)
