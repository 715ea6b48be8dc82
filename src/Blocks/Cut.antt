-- ===== src/Blocks/Cut.antt =====
-- The blocks into which the spans are cut (rust/src/s3/archive/block_store.rs), and when planning
-- succeeds.
use mathlib.Core.Path.{subst}
use shin_bucket_deployment.Prelude.{
  ℕ, zero, suc, ◌-◌, ◌≤◌, ◌<◌, List, [], ◌∷◌, ◌++◌, true, false, ◌&&◌, ◌≡◌, refl, inl, inr,
  Bool-cases, arith, min, max, ltb, leb, ◌==◌, ok, err, u64_max, saturating_add, sort, Pairwise,
  All, All-sort, &&_true, if◌then◌else◌, ltb→lt, leb→le,
}
use shin_bucket_deployment.Planner.{ZipEntryPlan}
use shin_bucket_deployment.Blocks.{
  SourceBlockRange, Span, block_len, span_before, clip_spans, coalesce_spans, cut_span, cut_spans,
  blocks_non_empty, blocks_disjoint, plan_source_blocks, blocks_overlap,
}
use shin_bucket_deployment.Blocks.Order.{
  Separated, IsApart, clip_bounds, coalesce_spans-Separated, coalesce_spans_bounds,
  planned_spans-Separated,
}

-- Blocks that are not empty and come one after the other from `lo` on.
abbrev pub Laid : ℕ → List SourceBlockRange → Type 0
Laid lo [] = Unit
Laid lo (block ∷ blocks) =
    (lo ≤ block.start) × (block.start < block.end_exclusive) × Laid block.end_exclusive blocks

abbrev pub IsSmall : ℕ → ℕ → SourceBlockRange → Type 0
IsSmall size l block = (block_len block ≤ size) × (block.end_exclusive ≤ l)

Laid-mono : (lo hi : ℕ) (blocks : List SourceBlockRange) → lo ≤ hi → Laid hi blocks → Laid lo blocks
Laid-mono lo hi [] p h = tt
Laid-mono lo hi (b ∷ blocks) p h = (omega (arith, p, h.0), h.1, h.2)

cut_span-Laid :
    (size end fuel start lo : ℕ) (rest : List SourceBlockRange)
    → 1 ≤ size
    → end ≤ u64_max
    → lo ≤ start
    → start ≤ end
    → Laid end rest
    → Laid lo (cut_span size end fuel start ++ rest)
unfolding cut_span
cut_span-Laid size end zero start lo rest s m p q h = Laid-mono lo end rest (omega arith) h
cut_span-Laid size end (suc fuel) start lo rest s m p q h = elim (Bool-cases (ltb start end)) [
  | inl e ↦
      let l = ltb→lt start end e in
      rw e (
        p,
        ground arith,
        cut_span-Laid size end fuel (min (saturating_add start size) end)
            (min (saturating_add start size) end) rest s m (omega arith) (omega arith) h,
      )
  | inr e ↦ rw e (Laid-mono lo end rest (omega arith) h)
]

cut_spans-Laid :
    (size l lo : ℕ) (spans : List Span)
    → 1 ≤ size
    → l ≤ u64_max
    → All (λ x. (x.0 < x.1) × (x.1 ≤ l)) spans
    → Separated lo spans
    → Laid lo (cut_spans size spans)
unfolding cut_spans
cut_spans-Laid size l lo [] s m k h = tt
cut_spans-Laid size l lo (x ∷ xs) s m k h =
    cut_span-Laid size x.1 (x.1 - x.0) x.0 lo (cut_spans size xs) s (omega (arith, m, k.0.1)) h.0
      (omega (arith, h.1)) (cut_spans-Laid size l x.1 xs s m k.1 h.2)

cut_span-IsSmall :
    (size end fuel start l : ℕ) (rest : List SourceBlockRange)
    → end ≤ l
    → All (IsSmall size l) rest
    → All (IsSmall size l) (cut_span size end fuel start ++ rest)
unfolding cut_span block_len
cut_span-IsSmall size end zero start l rest p h = h
cut_span-IsSmall size end (suc fuel) start l rest p h = elim (Bool-cases (ltb start end)) [
  | inl e ↦ rw e (
    (omega arith, omega arith),
    cut_span-IsSmall size end fuel (min (saturating_add start size) end) l rest p h,
  )
  | inr e ↦ rw e h
]

cut_spans-IsSmall :
    (size l : ℕ) (spans : List Span)
    → All (λ x. (x.0 < x.1) × (x.1 ≤ l)) spans
    → All (IsSmall size l) (cut_spans size spans)
unfolding cut_spans
cut_spans-IsSmall size l [] k = tt
cut_spans-IsSmall size l (x ∷ xs) k =
    cut_span-IsSmall size x.1 (x.1 - x.0) x.0 l (cut_spans size xs) k.0.1
      (cut_spans-IsSmall size l xs k.1)

-- The check of the blocks says that they are laid out.
Laid→checks :
    (lo : ℕ) (blocks : List SourceBlockRange)
    → Laid lo blocks
    → (blocks_non_empty blocks ≡ true) × (blocks_disjoint blocks ≡ true)
unfolding blocks_non_empty blocks_disjoint
Laid→checks lo [] h = (refl, refl)
Laid→checks lo (a ∷ []) h = (ground (arith, h.1), refl)
Laid→checks lo (a ∷ b ∷ blocks) h =
    let i = Laid→checks a.end_exclusive (b ∷ blocks) h.2 in
    (ground (arith, h.1, i.0), ground (arith, h.2.0, i.1))

checks→Laid :
    (a : SourceBlockRange) (blocks : List SourceBlockRange)
    → blocks_non_empty (a ∷ blocks) ≡ true
    → blocks_disjoint (a ∷ blocks) ≡ true
    → Laid a.start (a ∷ blocks)
unfolding blocks_non_empty blocks_disjoint
checks→Laid a [] h k = (omega arith, ground arith, tt)
checks→Laid a (b ∷ blocks) h k =
    let (p, q) = &&_true (ltb a.start a.end_exclusive) (blocks_non_empty (b ∷ blocks)) h in
    let (r, s) = &&_true (leb a.end_exclusive b.start) (blocks_disjoint (b ∷ blocks)) k in
    let i = checks→Laid b blocks q s in
    (omega arith, ground arith, (leb→le a.end_exclusive b.start r, i.1, i.2))

-- The blocks that are checked.
abbrev planned : ℕ → List ZipEntryPlan → ℕ → ℕ → List SourceBlockRange
planned l plans bytes gap =
    cut_spans (max bytes 1)
      (coalesce_spans (max bytes 1) gap (sort span_before (clip_spans l plans)))

checks→Laid_zero :
    (bs : List SourceBlockRange) → (blocks_non_empty bs && blocks_disjoint bs) ≡ true → Laid 0 bs
checks→Laid_zero [] h = tt
checks→Laid_zero (a ∷ bs) h =
    let (p, q) = &&_true (blocks_non_empty (a ∷ bs)) (blocks_disjoint (a ∷ bs)) h in
    Laid-mono 0 a.start (a ∷ bs) (omega arith) (checks→Laid a bs p q)

checked :
    (bs : List SourceBlockRange) {blocks : List SourceBlockRange}
    → (if blocks_non_empty bs && blocks_disjoint bs then ok bs else err blocks_overlap) ≡ ok blocks
    → (bs ≡ blocks) × Laid 0 bs
checked bs h = elim (Bool-cases (blocks_non_empty bs && blocks_disjoint bs)) [
  | inl e ↦ let z = rw e at h in (cc, checks→Laid_zero bs e)
  | inr e ↦ let z = rw e at h in cc
]

-- What is planned for a source that is not empty was checked.
pub plan_source_blocks-planned :
    (l : ℕ) (plans : List ZipEntryPlan) (bytes gap : ℕ) {blocks : List SourceBlockRange}
    → (l == 0) ≡ false
    → plan_source_blocks l plans bytes gap ≡ ok blocks
    → (planned l plans bytes gap ≡ blocks) × Laid 0 (planned l plans bytes gap)
unfolding plan_source_blocks
plan_source_blocks-planned l plans bytes gap e h = checked (planned l plans bytes gap) (rw e at h)

pub plan_source_blocks-Laid :
    (l : ℕ) (plans : List ZipEntryPlan) (bytes gap : ℕ) {blocks : List SourceBlockRange}
    → plan_source_blocks l plans bytes gap ≡ ok blocks
    → Laid 0 blocks
unfolding plan_source_blocks
plan_source_blocks-Laid l plans bytes gap {blocks = blocks} h = elim (Bool-cases (l == 0)) [
  | inl e ↦ let d : [] ≡ blocks = (let z = rw e at h in cc) in subst (Laid 0) d tt
  | inr e ↦
      let (d, i) = plan_source_blocks-planned l plans bytes gap {blocks = blocks} e h in
      subst (Laid 0) d i
]

pub plan_source_blocks-IsSmall :
    (l : ℕ) (plans : List ZipEntryPlan) (bytes gap : ℕ) {blocks : List SourceBlockRange}
    → plan_source_blocks l plans bytes gap ≡ ok blocks
    → All (IsSmall (max bytes 1) l) blocks
unfolding plan_source_blocks
plan_source_blocks-IsSmall l plans bytes gap {blocks = blocks} h = elim (Bool-cases (l == 0)) [
  | inl e ↦
      let d : [] ≡ blocks = (let z = rw e at h in cc) in subst (All (IsSmall (max bytes 1) l)) d tt
  | inr e ↦
      let size = max bytes 1 in
      let sorted = sort span_before (clip_spans l plans) in
      let (d, _) = plan_source_blocks-planned l plans bytes gap {blocks = blocks} e h in
      subst (All (IsSmall size l)) d (
        cut_spans-IsSmall size l (coalesce_spans size gap sorted) (
          coalesce_spans_bounds l size gap sorted
            (All-sort span_before (λ x. (x.0 < x.1) × (x.1 ≤ l)) _ (clip_bounds l plans))))
]

-- If the spans of the plans are apart and the source's length fits in 64 bits, planning succeeds:
-- the blocks come one after the other without overlap, none is empty, longer than a block (of one
-- byte at least) or beyond the end of the source.
pub plan_source_blocks-succeeds :
    (source_len : ℕ) (plans : List ZipEntryPlan) (block_bytes merge_gap_bytes : ℕ)
    → source_len ≤ u64_max
    → Pairwise IsApart plans
    → (blocks : List SourceBlockRange) × (plan_source_blocks source_len plans block_bytes
          merge_gap_bytes
        ≡ ok blocks)
      × Laid 0 blocks
      × All (IsSmall (max block_bytes 1) source_len) blocks
unfolding plan_source_blocks
plan_source_blocks-succeeds l plans bytes gap m h = elim (Bool-cases (l == 0)) [
  | inl e ↦ ([], rw e refl, tt, tt)
  | inr e ↦
      let size = max bytes 1 in
      let sorted = sort span_before (clip_spans l plans) in
      let spans = coalesce_spans size gap sorted in
      let bounded =
        coalesce_spans_bounds l size gap sorted
          (All-sort span_before (λ x. (x.0 < x.1) × (x.1 ≤ l)) _ (clip_bounds l plans)) in
      let laid =
        cut_spans-Laid size l 0 spans (omega arith) m bounded
          (coalesce_spans-Separated size gap sorted (planned_spans-Separated l plans h)) in
      let (p, q) = Laid→checks 0 (cut_spans size spans) laid in
      (cut_spans size spans, rw (e, p, q) refl, laid, cut_spans-IsSmall size l spans bounded)
]
