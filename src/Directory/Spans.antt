-- ===== src/Directory/Spans.antt =====
-- `cached_span` of rust/src/s3/archive/directory.rs reads the source, whatever is kept.
use mathlib.Core.List.{append_assoc, append-nil}
use mathlib.Core.Path.{subst}
use shin_bucket_deployment.Prelude.{
  ℕ, zero, suc, ◌+◌, ◌-◌, ◌%◌, ◌≤◌, ◌<◌, List, [], ◌∷◌, ◌++◌, Option, none, some, Option-cases,
  Bytes, length, take, drop, take-append-drop, drop-drop, take-append-take, length-take,
  length-drop, take-drop-append, length-take_le, ltb, leb, ltb→lt, leb→le, ◌==◌, min, max, ◌≡◌,
  refl, sym, ap, ◌∙◌, inl, inr, Bool-cases, arith, ok, >>=-eq-ok, ensure, ensure-eq-ok, ok_or,
  checked_add, saturating_add, All, ==_iff,
}
use shin_bucket_deployment.Directory.{
  SourceClient, Preloaded, get_block, align_down, fetch_block, load_block_for_offset, next_bytes,
  span_loop, cached_span, above_budget, preloaded_overflowed, offset_outside_source, no_progress,
  block_not_retained, span_overflowed, span_beyond_source,
}

-- What a ranged read promises: exactly the bytes asked for, of one content.
pub record IsServing (source : SourceClient) (content : Bytes) : Type 0 where
  pub served :
      (start end : ℕ) (bytes : Bytes)
      → source.get_range start end ≡ ok bytes
      → bytes ≡ take (end - start + 1) (drop start content)
  pub whole : source.len ≡ length content

-- A kept block is what the content has at its start.
abbrev pub IsPart : Bytes → ℕ × Bytes → Type 0
IsPart content block = (rest : Bytes) × (block.1 ++ rest ≡ drop block.0 content)

abbrev pub kept_bytes : List (ℕ × Bytes) → ℕ
kept_bytes [] = 0
kept_bytes (block ∷ blocks) = length block.1 + kept_bytes blocks

-- What is kept is of the content, and within the budget.
pub record IsKept (content : Bytes) (budget_limit : ℕ) (preloaded : Preloaded) : Type 0 where
  pub parts : All (IsPart content) preloaded.blocks
  pub counted : kept_bytes preloaded.blocks ≤ preloaded.bytes
  pub limited : preloaded.bytes ≤ budget_limit

get_block-IsPart :
    (content : Bytes) (blocks : List (ℕ × Bytes)) (start : ℕ) {block : Bytes}
    → All (IsPart content) blocks
    → get_block blocks start ≡ some block
    → IsPart content (start, block)
unfolding get_block
get_block-IsPart content [] start h e = cc
get_block-IsPart content (b ∷ blocks) start {block = block} h e = elim (Bool-cases (b.0 == start)) [
  | inl f ↦
      let z : some b.1 ≡ some block = rw f at e in
      let p : b.1 ≡ block = cc in
      let q = (==_iff b.0 start).0 f in
      subst (λ x. IsPart content (start, x)) p (subst (λ x. IsPart content (x, b.1)) q h.0)
  | inr f ↦ get_block-IsPart content blocks start {block = block} h.1 (rw (f, get_block) at e)
]

module _ (source : SourceClient) (chunk_size budget_limit : ℕ) (content : Bytes)
    (serving : IsServing source content) where
  abbrev Kept : Preloaded → Type 0
  Kept = IsKept content budget_limit

  fetch_block-IsKept :
      (start : ℕ) (p : Preloaded) {loaded : ℕ × Preloaded}
      → Kept p
      → fetch_block source chunk_size budget_limit start p ≡ ok loaded
      → (loaded.0 ≡ start) × Kept loaded.1
  unfolding fetch_block
  fetch_block-IsKept start p {loaded = loaded} k h =
      let end = min (source.len - 1) (saturating_add start (max chunk_size 1 - 1)) in
      let (projected, a, h1) =
        >>=-eq-ok (ok_or (checked_add p.bytes (end - start + 1)) preloaded_overflowed) _ h in
      let (_, b, h2) = >>=-eq-ok (ensure (leb projected budget_limit) above_budget) _ h1 in
      let (bytes, c, h3) = >>=-eq-ok (source.get_range start end) _ h2 in
      let e = serving.served start end bytes c in
      let n : projected ≡ p.bytes + (end - start + 1) = ground (arith, a) in
      let l = leb→le projected budget_limit (ensure-eq-ok (leb projected budget_limit) _ b) in
      let m = length-take_le (end - start + 1) (drop start content) in
      let next : Preloaded = record { blocks = (start, bytes) ∷ p.blocks; bytes = projected } in
      let kept : Kept next = record {
        parts = (
          (
            drop (end - start + 1) (drop start content),
            rw e (take-append-drop (end - start + 1) (drop start content)),
          ),
          k.parts,
        );
        counted = let o : length bytes ≤ end - start + 1 = rw e m in omega (arith, o, n, k.counted);
        limited = l;
      } in
      let d : (start, next) ≡ loaded = cc in subst (λ x. (x.0 ≡ start) × Kept x.1) d (refl, kept)

  pub load_block-IsKept :
      (offset : ℕ) (p : Preloaded) {loaded : ℕ × Preloaded}
      → Kept p
      → load_block_for_offset source chunk_size budget_limit offset p ≡ ok loaded
      → (loaded.0 ≤ offset) × Kept loaded.1
  unfolding load_block_for_offset align_down
  load_block-IsKept offset p {loaded = loaded} k h =
      let start = offset - offset % max chunk_size 1 in
      let (_, _, h1) = >>=-eq-ok (ensure (ltb offset source.len) offset_outside_source) _ h in
      elim (Option-cases (get_block p.blocks start)) [
        | inl e ↦
            let (a, b) = fetch_block-IsKept start p {loaded = loaded} k (rw e at h1) in
            (omega (arith, a), b)
        | inr (block, e) ↦
            let z : ok (start, p) ≡ ok loaded = rw e at h1 in
            let d : (start, p) ≡ loaded = cc in
            subst (λ x. (x.0 ≤ offset) × Kept x.1) d (omega arith, k)
      ]

  next_bytes-exact :
      (position end : ℕ) (p : Preloaded) {next : Bytes × Preloaded}
      → Kept p
      → next_bytes source chunk_size budget_limit position end p ≡ ok next
      → (t : ℕ) × (0 < t)
        × (t ≤ end - position)
        × (next.0 ≡ take t (drop position content))
        × (length next.0 ≡ t)
        × Kept next.1
  unfolding next_bytes
  next_bytes-exact position end p {next = next} k h =
      let (loaded, a, h1) =
        >>=-eq-ok (load_block_for_offset source chunk_size budget_limit position p) _ h in
      let (low, kept) = load_block-IsKept position p {loaded = loaded} k a in
      let (block, b, h2) =
        >>=-eq-ok (ok_or (get_block loaded.1.blocks loaded.0) block_not_retained) _ h1 in
      let relative = position - loaded.0 in
      let t = min (end - position) (length block - relative) in
      let (_, c, h3) = >>=-eq-ok (ensure (ltb 0 t) no_progress) _ h2 in
      let positive = ltb→lt 0 t (ensure-eq-ok (ltb 0 t) _ c) in
      let (rest, part) =
        get_block-IsPart content loaded.1.blocks loaded.0 {block = block} kept.parts
          (found (get_block loaded.1.blocks loaded.0) b) in
      let d : (take t (drop relative block), loaded.1) ≡ next = cc in
      let inside : relative + t ≤ length block = omega (arith, positive) in
      let read : take t (drop relative block) ≡ take t (drop position content) =
        (take-drop-append t relative block rest inside
          ∙ ap (λ x. take t (drop relative x)) part
          ∙ ap (take t)
              (drop-drop loaded.0 relative content ∙ ap (λ x. drop x content) (the_sum low))) in
      let long : length (take t (drop relative block)) ≡ t =
        length-take t (drop relative block)
          (let l = length-drop relative block in omega (arith, inside, l)) in
      subst
        (λ x.
          (t : ℕ) × (0 < t)
          × (t ≤ end - position)
          × (x.0 ≡ take t (drop position content))
          × (length x.0 ≡ t)
          × Kept x.1)
        d (t, positive, omega arith, read, long, kept)
    where
      found :
          (o : Option Bytes) {block : Bytes}
          → ok_or o block_not_retained ≡ ok block
          → o ≡ some block
      found none e = cc
      found (some b) e = cc

      the_sum : {l : ℕ} → l ≤ position → l + (position - l) ≡ position
      the_sum h = omega arith

  nothing_left :
      (end : ℕ) (output : Bytes) (position : ℕ)
      → end - position ≡ 0
      → output ≡ output ++ take (end - position) (drop position content)
  nothing_left end output position e = rw e (sym (append-nil output))

  joined :
      (output next : Bytes) (end position t : ℕ)
      → next ≡ take t (drop position content)
      → length next ≡ t
      → t ≤ end - position
      → (output ++ next)
          ++ take (end - (position + length next)) (drop (position + length next) content)
        ≡ output ++ take (end - position) (drop position content)
  joined output next end position t read long small =
      let n : end - (position + t) ≡ (end - position) - t = omega arith in
      let m : t + ((end - position) - t) ≡ end - position = omega (arith, small) in
      append_assoc output next _
      ∙ ap (λ x. output ++ x)
          (rw (long, n, read)
            (ap (λ x. take t (drop position content) ++ take ((end - position) - t) x)
                (sym (drop-drop position t content))
              ∙ take-append-take t ((end - position) - t) (drop position content)
              ∙ ap (λ x. take x (drop position content)) m))

  span_loop-exact :
      (end fuel : ℕ) (output : Bytes) (position : ℕ) (p : Preloaded) {last : Bytes × Preloaded}
      → position ≤ end
      → end ≤ position + fuel
      → Kept p
      → span_loop source chunk_size budget_limit end fuel output position p ≡ ok last
      → (last.0 ≡ output ++ take (end - position) (drop position content)) × Kept last.1
  unfolding span_loop
  span_loop-exact end zero output position p {last = last} low enough k h =
      let d : (output, p) ≡ last = cc in
      subst (λ x. (x.0 ≡ output ++ take (end - position) (drop position content)) × Kept x.1) d
        (nothing_left end output position (omega arith), k)
  span_loop-exact end (suc fuel) output position p {last = last} low enough k h =
      elim (Bool-cases (ltb position end)) [
        | inr e ↦
            let z : ok (output, p) ≡ ok last = rw (e, span_loop) at h in
            let d : (output, p) ≡ last = cc in
            subst (λ x. (x.0 ≡ output ++ take (end - position) (drop position content)) × Kept x.1)
              d (nothing_left end output position (ground arith), k)
        | inl e ↦
            let (next, a, h1) =
              >>=-eq-ok (next_bytes source chunk_size budget_limit position end p) _
                (rw (e, span_loop) at h) in
            let (t, positive, small, read, long, kept) =
              next_bytes-exact position end p {next = next} k a in
            let (i, j) =
              span_loop-exact end fuel (output ++ next.0) (position + length next.0) next.1
                {last = last} (omega (arith, small, long)) (omega (arith, positive, long)) kept
                h1 in
            (i ∙ joined output next.0 end position t read long small, j)
      ]

-- If ranged reads answer with exactly the bytes asked for, then a metadata span that is read,
-- through whatever blocks are kept already and however the chunks cut it, is exactly the source's
-- bytes from its start, as many as asked for; the blocks kept are still the source's, and together
-- within the budget.
pub cached_span-exact :
    (source : SourceClient) (chunk_size budget_limit : ℕ) (content : Bytes) (start len : ℕ)
    (before after : Preloaded) (span : Bytes)
    → IsServing source content
    → IsKept content budget_limit before
    → cached_span source chunk_size budget_limit start len before ≡ ok (span, after)
    → (span ≡ take len (drop start content))
      × (length span ≡ len)
      × IsKept content budget_limit after
unfolding cached_span
cached_span-exact source chunk_size budget_limit content start len before after span serving kept
      h =
    let (end, a, h1) = >>=-eq-ok (ok_or (checked_add start len) span_overflowed) _ h in
    let (_, b, h2) = >>=-eq-ok (ensure (leb end source.len) span_beyond_source) _ h1 in
    let e : end ≡ start + len = ground (arith, a) in
    let l = leb→le end source.len (ensure-eq-ok (leb end source.len) _ b) in
    let (i, j) =
      span_loop-exact source chunk_size budget_limit content serving end len [] start before
        {last = (span, after)} (omega (arith, e)) (omega (arith, e)) kept h2 in
    let n : end - start ≡ len = omega (arith, e) in
    let read : span ≡ take len (drop start content) = rw n at i in
    let d = length-drop start content in
    (
      read,
      rw read (length-take len (drop start content) (omega (arith, d, l, e, serving.whole))),
      j,
    )
