-- ===== src/Directory/Search.antt =====
-- What the search for the end of central directory finds, and that it looks at every turn it needs
-- (rust/src/s3/archive/directory.rs).
use mathlib.Core.Path.{subst}
use shin_bucket_deployment.Prelude.{
  take-drop-append, take-append-drop, drop-drop, bytes_eq→eq, ◌++◌, ℕ, zero, suc, ◌+◌, ◌-◌, ◌≤◌,
  ◌<◌, ◌||◌, ||_false, Bool, true, false, not, Option, none, some, Bytes, length, take, drop,
  bytes_eq, ltb, leb, ◌==◌, ==_iff, min, max, ◌≡◌, refl, sym, ◌∙◌, ap, Bool-cases, inl, inr, arith,
  if◌then◌else◌, Result, ok, err, ◌>>=◌, >>=-eq-ok, ok_or, saturating_add, checked_add,
}
use shin_bucket_deployment.Directory.{
  SourceClient, Preloaded, Loaded, load_block_for_offset, cached_span, get_block,
  block_not_retained, span_overflowed, no_end_record, DirectoryError,
}
use shin_bucket_deployment.Directory.Records.{eocd_len, number_at}
use shin_bucket_deployment.Directory.Spans.{IsServing, IsKept, cached_span-exact, load_block-IsKept}
use shin_bucket_deployment.Directory.Locate.{
  eocd_signature, is_len, ends_source, scan_back, search_start, probe_block, after_probe,
  locate_loop, locate_eocd,
}

is_len_ok :
    (source_len : ℕ) (r : Result DirectoryError ℕ)
    → is_len source_len r ≡ true
    → (end : ℕ) × (r ≡ ok end) × (end ≡ source_len)
is_len_ok source_len (ok end) h = (end, refl, (==_iff end source_len).0 h)
is_len_ok source_len (err e) h = cc

-- An end record at an offset: the bytes there start with its signature, and its comment, whose length
-- they say, ends the content.
pub record IsEndRecord (content : Bytes) (offset : ℕ) : Type 0 where
  pub comment_len : ℕ
  pub signed : take 4 (drop offset content) ≡ eocd_signature
  pub commented : number_at 2 (take eocd_len (drop offset content)) 20 ≡ ok comment_len
  pub ending : offset + eocd_len + comment_len ≡ length content

-- The test that a candidate passes.
signed_by :
    (bytes : Bytes) (late : Bool)
    → (late || not (bytes_eq bytes eocd_signature)) ≡ false
    → bytes ≡ eocd_signature
signed_by bytes late h =
    let (_, e) = ||_false late (not (bytes_eq bytes eocd_signature)) h in
    bytes_eq→eq bytes eocd_signature (ground arith)

-- Four bytes of a candidate are those of the content.
read_in_candidate :
    (content candidate : Bytes) (start len relative : ℕ)
    → candidate ≡ take len (drop start content)
    → relative + 4 ≤ length candidate
    → take 4 (drop relative candidate) ≡ take 4 (drop (start + relative) content)
read_in_candidate content candidate start len relative e h =
    take-drop-append 4 relative candidate (drop len (drop start content)) h
    ∙ ap (λ x. take 4 (drop relative (x ++ drop len (drop start content)))) e
    ∙ ap (λ x. take 4 (drop relative x)) (take-append-drop len (drop start content))
    ∙ ap (take 4) (drop-drop start relative content)

module _ (source : SourceClient) (chunk_size budget_limit : ℕ) (content : Bytes)
    (serving : IsServing source content) where
  abbrev Kept : Preloaded → Type 0
  Kept = IsKept content budget_limit

  abbrev Found : Option ℕ → Type 0
  Found none = Unit
  Found (some offset) = IsEndRecord content offset

  ends_source_sound :
      (absolute comment_len : ℕ)
      → ends_source source.len absolute comment_len ≡ true
      → absolute + eocd_len + comment_len ≡ source.len
  unfolding ends_source
  ends_source_sound absolute comment_len h =
      let (end, e, f) = is_len_ok source.len _ h in
      let (first, a, b) = >>=-eq-ok (ok_or (checked_add absolute eocd_len) span_overflowed) _ e in
      let c : first ≡ absolute + eocd_len = ground (arith, a) in
      let d : end ≡ first + comment_len = ground (arith, b) in omega (arith, c, d, f)

  scan_back-Found :
      (candidate : Bytes) (start len count : ℕ) (p : Preloaded) {found : Option ℕ × Preloaded}
      → candidate ≡ take len (drop start content)
      → count ≤ length candidate - 3
      → Kept p
      → scan_back source chunk_size budget_limit candidate start count p ≡ ok found
      → Found found.0 × Kept found.1
  unfolding scan_back
  scan_back-Found candidate start len zero p {found = found} c n k h =
      let d : (none, p) ≡ found = cc in subst (λ x. Found x.0 × Kept x.1) d (tt, k)
  scan_back-Found candidate start len (suc relative) p {found = found} c n k h =
      elim (Bool-cases (
        ltb (source.len - eocd_len) (start + relative)
        || not (bytes_eq (take 4 (drop relative candidate)) eocd_signature))) [
          | inl e ↦
              scan_back-Found candidate start len relative p {found = found} c (omega (arith, n)) k
                (rw (e, scan_back) at h)
          | inr e ↦
              let (header, a, h1) =
                >>=-eq-ok (cached_span source chunk_size budget_limit (start + relative) eocd_len p)
                  _ (rw (e, scan_back) at h) in
              let (comment_len, b, h2) = >>=-eq-ok (number_at 2 header.0 20) _ h1 in
              let (read, _, kept) =
                cached_span-exact source chunk_size budget_limit content (start + relative) eocd_len
                  p header.1 header.0 serving k a in
              elim (Bool-cases (ends_source source.len (start + relative) comment_len)) [
                | inl f ↦
                    let z : ok (some (start + relative), header.1) ≡ ok found =
                      rw (f, scan_back) at h2 in
                    let d : (some (start + relative), header.1) ≡ found = cc in
                    let l = ends_source_sound (start + relative) comment_len f in
                    subst (λ x. Found x.0 × Kept x.1) d
                      (
                        record {
                          comment_len = comment_len;
                          signed =
                              sym (
                                read_in_candidate content candidate start len relative c
                                  (omega (arith, n)))
                              ∙ signed_by (take 4 (drop relative candidate)) _ e;
                          commented = subst (λ x. number_at 2 x 20 ≡ ok comment_len) read b;
                          ending = l ∙ serving.whole;
                        },
                        kept,
                      )
                | inr f ↦
                    scan_back-Found candidate start len relative header.1 {found = found} c
                      (omega (arith, n)) kept (rw (f, scan_back) at h2)
              ]
        ]

  probe_block-Found :
      (scan_end : ℕ) (p : Preloaded) {probed : (Option ℕ × ℕ) × Preloaded}
      → Kept p
      → probe_block source chunk_size budget_limit scan_end p ≡ ok probed
      → Found probed.0.0 × (probed.0.1 ≤ scan_end - 1) × Kept probed.1
  unfolding probe_block
  probe_block-Found scan_end p {probed = probed} k h =
      let (loaded, a, h1) =
        >>=-eq-ok (load_block_for_offset source chunk_size budget_limit (scan_end - 1) p) _ h in
      let (low, kept) =
        load_block-IsKept source chunk_size budget_limit content serving (scan_end - 1) p
          {loaded = loaded} k a in
      let (block, _, h2) =
        >>=-eq-ok (ok_or (get_block loaded.1.blocks loaded.0) block_not_retained) _ h1 in
      let (block_end, _, h3) =
        >>=-eq-ok (ok_or (checked_add loaded.0 (length block)) span_overflowed) _ h2 in
      let start = max loaded.0 (search_start source.len) in
      let candidate_end = min block_end (saturating_add (source.len - eocd_len) 4) in
      let overlap_end = min source.len (saturating_add candidate_end 3) in
      let (candidate, b, h4) =
        >>=-eq-ok (cached_span source chunk_size budget_limit start (overlap_end - start) loaded.1)
          _ h3 in
      let (cut, _, kept2) =
        cached_span-exact source chunk_size budget_limit content start (overlap_end - start)
          loaded.1 candidate.1 candidate.0 serving kept b in
      let (found, c, h5) =
        >>=-eq-ok
          (scan_back source chunk_size budget_limit candidate.0 start (length candidate.0 - 3)
            candidate.1)
          _ h4 in
      let (f, kept3) =
        scan_back-Found candidate.0 start (overlap_end - start) (length candidate.0 - 3) candidate.1
          {found = found} cut (omega arith) kept2 c in
      let d : ((found.0, loaded.0), found.1) ≡ probed = cc in
      subst (λ x. Found x.0.0 × (x.0.1 ≤ scan_end - 1) × Kept x.1) d (f, low, kept3)

  after_probe-IsEndRecord :
      (next : ℕ → Preloaded → Loaded ℕ) (found : Option ℕ) (start : ℕ) (q : Preloaded)
      {located : ℕ × Preloaded}
      → Found found
      → Kept q
      → (next start q ≡ ok located → IsEndRecord content located.0 × Kept located.1)
      → after_probe source chunk_size budget_limit next found start q ≡ ok located
      → IsEndRecord content located.0 × Kept located.1
  after_probe-IsEndRecord next (some offset) start q {located = located} f kept later e =
      let d : (offset, q) ≡ located = cc in
      subst (λ x. IsEndRecord content x.0 × Kept x.1) d (f, kept)
  after_probe-IsEndRecord next none start q {located = located} f kept later e =
      elim (Bool-cases (leb start (search_start source.len) || start == 0)) [
        | inl b ↦ let z : err no_end_record ≡ ok located = rw b at e in cc
        | inr b ↦ later (rw b at e)
      ]

  locate_loop-IsEndRecord :
      (fuel scan_end : ℕ) (p : Preloaded) {located : ℕ × Preloaded}
      → Kept p
      → locate_loop source chunk_size budget_limit fuel scan_end p ≡ ok located
      → IsEndRecord content located.0 × Kept located.1
  unfolding locate_loop
  locate_loop-IsEndRecord zero scan_end p k h = cc
  locate_loop-IsEndRecord (suc fuel) scan_end p {located = located} k h =
      let (probed, a, h1) = >>=-eq-ok (probe_block source chunk_size budget_limit scan_end p) _ h in
      let (f, _, kept) = probe_block-Found scan_end p {probed = probed} k a in
      after_probe-IsEndRecord (locate_loop source chunk_size budget_limit fuel) probed.0.0
        probed.0.1 probed.1 {located = located} f kept
        (λ e. locate_loop-IsEndRecord fuel probed.0.1 probed.1 {located = located} kept e) h1

  -- What follows a probe depends on the next turn at a positive start alone.
  after_probe_same :
      (next other : ℕ → Preloaded → Loaded ℕ) (r : Loaded (Option ℕ × ℕ))
      → ((start : ℕ) (q : Preloaded)
          → 0 < start
          → r ≡ ok ((none, start), q)
          → next start q ≡ other start q)
      → (r >>= λ x. after_probe source chunk_size budget_limit next x.0.0 x.0.1 x.1)
        ≡ (r >>= λ x. after_probe source chunk_size budget_limit other x.0.0 x.0.1 x.1)
  after_probe_same next other (err e) same = refl
  after_probe_same next other (ok ((some offset, start), q)) same = refl
  after_probe_same next other (ok ((none, start), q)) same =
      go (leb start (search_start source.len) || start == 0) refl
    where
      go :
          (b : Bool)
          → (leb start (search_start source.len) || start == 0) ≡ b
          → (if b then err no_end_record else next start q)
            ≡ (if b then err no_end_record else other start q)
      go true e = refl
      go false e =
          let (_, z) = ||_false (leb start (search_start source.len)) (start == 0) e in
          same start q (ground (arith, z)) refl

  -- A turn more changes nothing, where the fuel is the position at least.
  locate_loop_enough :
      (fuel scan_end : ℕ) (p : Preloaded)
      → Kept p
      → 0 < scan_end
      → scan_end ≤ fuel
      → locate_loop source chunk_size budget_limit (suc fuel) scan_end p
        ≡ locate_loop source chunk_size budget_limit fuel scan_end p
  unfolding locate_loop
  locate_loop_enough zero scan_end p k positive small = absurd (omega arith)
  locate_loop_enough (suc fuel) scan_end p k positive small =
      after_probe_same (locate_loop source chunk_size budget_limit (suc fuel))
        (locate_loop source chunk_size budget_limit fuel)
        (probe_block source chunk_size budget_limit scan_end p)
        (λ start q above e.
          let (_, low, kept) = probe_block-Found scan_end p {probed = ((none, start), q)} k e in
          locate_loop_enough fuel start q kept above (omega (arith, low)))

  locate_loop_fuel :
      (extra : ℕ) (p : Preloaded)
      → Kept p
      → 0 < source.len
      → locate_loop source chunk_size budget_limit (extra + source.len) source.len p
        ≡ locate_loop source chunk_size budget_limit source.len source.len p
  locate_loop_fuel zero p k positive =
      let e : 0 + source.len ≡ source.len = omega arith in rw e refl
  locate_loop_fuel (suc extra) p k positive =
      let e : suc extra + source.len ≡ suc (extra + source.len) = omega arith in
      ap (λ n. locate_loop source chunk_size budget_limit n source.len p) e
      ∙ locate_loop_enough (extra + source.len) source.len p k positive (omega arith)
      ∙ locate_loop_fuel extra p k positive

-- If ranged reads answer with exactly the bytes asked for, and the source has room for an end record,
-- then what the search finds, whatever turns it is given beyond one for each byte, is found by the
-- search as it is, and is an end record of the source: its bytes start with the signature, and its
-- comment, as long as the bytes say, ends exactly where the source ends. The blocks kept are still
-- the source's and within the budget.
pub locate_eocd-IsEndRecord :
    (source : SourceClient) (chunk_size budget_limit : ℕ) (content : Bytes) (extra offset : ℕ)
    (before after : Preloaded)
    → IsServing source content
    → IsKept content budget_limit before
    → eocd_len ≤ source.len
    → locate_loop source chunk_size budget_limit (extra + source.len) source.len before
      ≡ ok (offset, after)
    → (locate_eocd source chunk_size budget_limit before ≡ ok (offset, after))
      × IsEndRecord content offset
      × IsKept content budget_limit after
unfolding locate_eocd
locate_eocd-IsEndRecord source chunk budget content extra offset before after serving kept room h =
    let same =
      locate_loop_fuel source chunk budget content serving extra before kept
        (omega (arith, room)) in
    let (e, k) =
      locate_loop-IsEndRecord source chunk budget content serving (extra + source.len) source.len
        before {located = (offset, after)} kept h in
    (sym same ∙ h, e, k)
