-- ===== src/Directory/Bounds.antt =====
-- What `read_directory_info` of rust/src/s3/archive/directory.rs accepts.
use mathlib.Core.Path.{subst}
use shin_bucket_deployment.Prelude.{
  ℕ, ◌+◌, ◌-◌, ◌*◌, ◌≤◌, ◌&&◌, Option, none, some, Bytes, take, bytes_eq, leb, leb→le, ◌==◌, ==_iff,
  &&_true, ◌≡◌, refl, sym, Bool-cases, inl, inr, arith, ok, >>=-eq-ok, ensure, ensure-eq-ok, ok_or,
  checked_add, checked_sub, checked_mul,
}
use shin_bucket_deployment.Directory.{
  SourceClient, Preloaded, cached_span, span_overflowed, span_beyond_source, directory_overflowed,
  directory_not_bound, entry_count_overflowed, sentinels_without_zip64, invalid_zip64_signature,
  short_zip64_record, zip64_overflowed,
}
use shin_bucket_deployment.Directory.Records.{
  ZipDirectoryInfo, EndRecord, eocd_len, number_at, validate_directory_info, parse_end_record,
  parse_locator, parse_zip64_record, legacy_info, find_locator, info_and_boundary,
  read_directory_info, zip64_locator_signature, zip64_eocd_signature, has_no_sentinel,
  check_zip64_end, zip64_fields,
}

validate_directory_info_sound :
    (info : ZipDirectoryInfo) (boundary source_len : ℕ) {u : Unit {0}}
    → validate_directory_info info boundary source_len ≡ ok u
    → (info.central_directory_start + info.central_directory_size ≡ boundary)
      × (boundary ≤ source_len)
      × (46 * info.entry_count ≤ info.central_directory_size)
unfolding validate_directory_info
validate_directory_info_sound info boundary source_len h =
    let (end, a, h1) =
      >>=-eq-ok
        (ok_or (checked_add info.central_directory_start info.central_directory_size)
          directory_overflowed)
        _ h in
    let (_, b, h2) =
      >>=-eq-ok (ensure (end == boundary && leb end source_len) directory_not_bound) _ h1 in
    let (least, c, d) =
      >>=-eq-ok (ok_or (checked_mul info.entry_count 46) entry_count_overflowed) _ h2 in
    let (p, q) = &&_true (end == boundary) (leb end source_len) (ensure-eq-ok _ _ b) in
    let e = (==_iff end boundary).0 p in
    let f : end ≡ info.central_directory_start + info.central_directory_size = ground (arith, a) in
    let g : least ≡ info.entry_count * 46 = ground (arith, c) in
    let l = leb→le end source_len q in
    let m = leb→le least info.central_directory_size (ensure-eq-ok _ _ d) in
    (omega (arith, e, f), omega (arith, e, l), omega (arith, g, m))

cached_span-within :
    (source : SourceClient) (chunk_size budget_limit start len : ℕ) (p : Preloaded)
    {read : Bytes × Preloaded}
    → cached_span source chunk_size budget_limit start len p ≡ ok read
    → start + len ≤ source.len
unfolding cached_span
cached_span-within source chunk_size budget_limit start len p h =
    let (end, a, h1) = >>=-eq-ok (ok_or (checked_add start len) span_overflowed) _ h in
    let (_, b, h2) = >>=-eq-ok (ensure (leb end source.len) span_beyond_source) _ h1 in
    let e : end ≡ start + len = ground (arith, a) in
    let l = leb→le end source.len (ensure-eq-ok (leb end source.len) _ b) in omega (arith, e, l)

legacy_boundary :
    (r : EndRecord) (offset : ℕ) {info : ZipDirectoryInfo × ℕ}
    → legacy_info r offset ≡ ok info
    → info.1 ≡ offset
unfolding legacy_info
legacy_boundary r offset {info = info} h =
    let (_, _, g) = >>=-eq-ok (ensure (has_no_sentinel r) sentinels_without_zip64) _ h in
    let d : offset ≡ info.1 = cc in sym d

zip64_end :
    (locator_offset zip64_offset : ℕ) (bytes : Bytes) {u : Unit {0}}
    → check_zip64_end locator_offset zip64_offset bytes ≡ ok u
    → zip64_offset + 56 ≤ locator_offset
unfolding check_zip64_end
zip64_end locator_offset zip64_offset bytes h =
    let (_, _, h1) =
      >>=-eq-ok (ensure (bytes_eq (take 4 bytes) zip64_eocd_signature) invalid_zip64_signature) _
        h in
    let (size, _, h2) = >>=-eq-ok (number_at 8 bytes 4) _ h1 in
    let (_, a, h3) = >>=-eq-ok (ensure (leb 44 size) short_zip64_record) _ h2 in
    let (fixed, b, h4) = >>=-eq-ok (ok_or (checked_add zip64_offset 12) zip64_overflowed) _ h3 in
    let (end, c, d) = >>=-eq-ok (ok_or (checked_add fixed size) zip64_overflowed) _ h4 in
    let l = leb→le 44 size (ensure-eq-ok (leb 44 size) _ a) in
    let e : fixed ≡ zip64_offset + 12 = ground (arith, b) in
    let f : end ≡ fixed + size = ground (arith, c) in
    let g = (==_iff end locator_offset).0 (ensure-eq-ok (end == locator_offset) _ d) in
    omega (arith, l, e, f, g)

zip64_boundary :
    (r : EndRecord) (locator_offset zip64_offset : ℕ) (bytes : Bytes) {info : ZipDirectoryInfo × ℕ}
    → parse_zip64_record r locator_offset zip64_offset bytes ≡ ok info
    → info.1 + 56 ≤ locator_offset
unfolding parse_zip64_record
zip64_boundary r locator_offset zip64_offset bytes {info = info} h =
    let (_, a, h1) = >>=-eq-ok (check_zip64_end locator_offset zip64_offset bytes) _ h in
    let (fields, _, h2) = >>=-eq-ok (zip64_fields r bytes) _ h1 in
    let d : zip64_offset ≡ info.1 = cc in
    let l = zip64_end locator_offset zip64_offset bytes a in omega (arith, d, l)

module _ (source : SourceClient) (chunk_size budget_limit : ℕ) where
  locator_before :
      (offset : ℕ) (p : Preloaded) {found : Option (ℕ × Bytes) × Preloaded} {l : ℕ × Bytes}
      → find_locator source chunk_size budget_limit (checked_sub offset 20) p ≡ ok found
      → found.0 ≡ some l
      → l.0 + 20 ≤ offset
  unfolding find_locator
  locator_before offset p {found = found} {l = l} h e = elim (Bool-cases (leb 20 offset)) [
    | inr f ↦
        let z : ok (none, p) ≡ ok found = rw (f, find_locator) at h in
        let d : none ≡ found.0 = cc in cc
    | inl f ↦
        let (read, _, g) =
          >>=-eq-ok (cached_span source chunk_size budget_limit (offset - 20) 20 p) _
            (rw (f, find_locator) at h) in
        let at_most = leb→le 20 offset f in
        elim (Bool-cases (bytes_eq (take 4 read.0) zip64_locator_signature)) [
          | inl q ↦
              let z : ok (some (offset - 20, read.0), read.1) ≡ ok found = rw q at g in
              let d : offset - 20 ≡ l.0 = cc in omega (arith, d, at_most)
          | inr q ↦
              let z : ok (none, read.1) ≡ ok found = rw q at g in let d : none ≡ found.0 = cc in cc
        ]
  ]

  boundary_before :
      (r : EndRecord) (offset : ℕ) (locator : Option (ℕ × Bytes)) (p : Preloaded)
      {info : (ZipDirectoryInfo × ℕ) × Preloaded}
      → ((l : ℕ × Bytes) → locator ≡ some l → l.0 + 20 ≤ offset)
      → info_and_boundary source chunk_size budget_limit r offset locator p ≡ ok info
      → info.0.1 ≤ offset
  unfolding info_and_boundary
  boundary_before r offset none p {info = info} before h =
      let (found, a, g) = >>=-eq-ok (legacy_info r offset) _ h in
      let d : found.1 ≡ info.0.1 = cc in
      let e = legacy_boundary r offset {info = found} a in omega (arith, d, e)
  boundary_before r offset (some l) p {info = info} before h =
      let (zip64_offset, _, h1) = >>=-eq-ok (parse_locator l.1) _ h in
      let (read, _, h2) =
        >>=-eq-ok (cached_span source chunk_size budget_limit zip64_offset 56 p) _ h1 in
      let (found, a, g) = >>=-eq-ok (parse_zip64_record r l.0 zip64_offset read.0) _ h2 in
      let d : found.1 ≡ info.0.1 = cc in
      let e = zip64_boundary r l.0 zip64_offset read.0 {info = found} a in
      let b = before l refl in omega (arith, d, e, b)

-- What is read of the end records is bound: the central directory ends where the first end record
-- starts or before it, the end record lies within the source, and the directory has 46 bytes at
-- least for each entry that it declares.
pub read_directory_info_bounds :
    (source : SourceClient) (chunk_size budget_limit eocd_offset : ℕ) (before after : Preloaded)
    (info : ZipDirectoryInfo)
    → read_directory_info source chunk_size budget_limit eocd_offset before ≡ ok (info, after)
    → (info.central_directory_start + info.central_directory_size ≤ eocd_offset)
      × (eocd_offset + eocd_len ≤ source.len)
      × (46 * info.entry_count ≤ info.central_directory_size)
unfolding read_directory_info
read_directory_info_bounds source chunk budget offset before after info h =
    let (eocd, a, h1) = >>=-eq-ok (cached_span source chunk budget offset eocd_len before) _ h in
    let (r, _, h2) = >>=-eq-ok (parse_end_record eocd.0) _ h1 in
    let (locator, b, h3) =
      >>=-eq-ok (find_locator source chunk budget (checked_sub offset 20) eocd.1) _ h2 in
    let (found, c, h4) =
      >>=-eq-ok (info_and_boundary source chunk budget r offset locator.0 locator.1) _ h3 in
    let (_, d, h5) = >>=-eq-ok (validate_directory_info found.0.0 found.0.1 source.len) _ h4 in
    let (e, _, f) = validate_directory_info_sound found.0.0 found.0.1 source.len d in
    let g =
      boundary_before source chunk budget r offset locator.0 locator.1 {info = found}
        (λ l q. locator_before source chunk budget offset eocd.1 {found = locator} {l = l} b q) c in
    let w = cached_span-within source chunk budget offset eocd_len before a in
    let i : found.0.0 ≡ info = cc in
    subst
      (λ x.
        (x.central_directory_start + x.central_directory_size ≤ offset)
        × (offset + eocd_len ≤ source.len)
        × (46 * x.entry_count ≤ x.central_directory_size))
      i (omega (arith, e, g), w, f)
