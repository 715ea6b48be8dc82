-- ===== src/Blocks/Order.antt =====
-- The planned blocks of rust/src/s3/archive/block_store.rs are in order, apart and in bounds.
use shin_bucket_deployment.Prelude.{
  ℕ, ◌-◌, ◌≤◌, ◌<◌, List, [], ◌∷◌, true, false, ◌&&◌, ◌≡◌, ◌⊎◌, inl, inr, Bool-cases, arith, min,
  max, ltb, leb, sort, insert_sorted, Pairwise, All, All-sort,
}
use shin_bucket_deployment.Planner.{ZipEntryPlan}
use shin_bucket_deployment.Blocks.{
  SourceBlockRange, Span, span_before, clip_spans, coalesce_from, coalesce_spans,
}

-- Spans that are not empty and come one after the other from `lo` on.
abbrev pub Separated : ℕ → List Span → Type 0
Separated lo [] = Unit
Separated lo (span ∷ spans) = (lo ≤ span.0) × (span.0 < span.1) × Separated span.1 spans

-- The same of blocks.
abbrev pub Laid : ℕ → List SourceBlockRange → Type 0
Laid lo [] = Unit
Laid lo (block ∷ blocks) =
    (lo ≤ block.start) × (block.start < block.end_exclusive) × Laid block.end_exclusive blocks

abbrev pub IsApart : ZipEntryPlan → ZipEntryPlan → Type 0
IsApart a b =
    (a.source_span_end_exclusive ≤ b.source_offset)
    ⊎ (b.source_span_end_exclusive ≤ a.source_offset)

abbrev Apart : Span → Span → Type 0
Apart a b = (a.1 ≤ b.0) ⊎ (b.1 ≤ a.0)

Apart-min : (l a b c d : ℕ) → (b ≤ c) ⊎ (d ≤ a) → Apart (min a l, min b l) (min c l, min d l)
Apart-min l a b c d h = ground arith

span_before-first :
    (x y : Span) → x.0 < x.1 → y.0 < y.1 → span_before x y ≡ true → Apart x y → x.1 ≤ y.0
unfolding span_before
span_before-first x y p q e a = ground arith

span_before-last :
    (x y : Span) → x.0 < x.1 → y.0 < y.1 → span_before x y ≡ false → Apart x y → y.1 ≤ x.0
unfolding span_before
span_before-last x y p q e a = ground arith

insert-Separated :
    (lo : ℕ) (x : Span) (xs : List Span)
    → lo ≤ x.0
    → x.0 < x.1
    → All (Apart x) xs
    → Separated lo xs
    → Separated lo (insert_sorted span_before x xs)
insert-Separated lo x [] p q a h = (p, q, tt)
insert-Separated lo x (y ∷ ys) p q a h = elim (Bool-cases (span_before x y)) [
  | inl e ↦ rw e (p, q, (span_before-first x y q h.1 e a.0, h.1, h.2))
  | inr e ↦ rw e (h.0, h.1, insert-Separated y.1 x ys (span_before-last x y q h.1 e a.0) q a.1 h.2)
]

sort-Separated :
    (xs : List Span)
    → Pairwise Apart xs
    → All (λ x. x.0 < x.1) xs
    → Separated 0 (sort span_before xs)
sort-Separated [] h k = tt
sort-Separated (x ∷ xs) h k =
    insert-Separated 0 x (sort span_before xs) (omega arith) k.0
      (All-sort span_before (Apart x) xs h.0) (sort-Separated xs h.1 k.1)

-- What cutting at the end of the source keeps.
clip-Apart :
    (l : ℕ) (plan : ZipEntryPlan) (plans : List ZipEntryPlan)
    → All (IsApart plan) plans
    → All
        (Apart (min plan.source_offset l, min plan.source_span_end_exclusive l))
        (clip_spans l plans)
unfolding clip_spans
clip-Apart l plan [] h = tt
clip-Apart l plan (other ∷ plans) h =
    elim (Bool-cases (ltb (min other.source_offset l) (min other.source_span_end_exclusive l))) [
      | inl e ↦ rw e (
        Apart-min l plan.source_offset plan.source_span_end_exclusive other.source_offset
            other.source_span_end_exclusive h.0,
        clip-Apart l plan plans h.1,
      )
      | inr e ↦ rw e (clip-Apart l plan plans h.1)
    ]

clip-Pairwise :
    (l : ℕ) (plans : List ZipEntryPlan)
    → Pairwise IsApart plans
    → Pairwise Apart (clip_spans l plans)
unfolding clip_spans
clip-Pairwise l [] h = tt
clip-Pairwise l (plan ∷ plans) h =
    elim (Bool-cases (ltb (min plan.source_offset l) (min plan.source_span_end_exclusive l))) [
      | inl e ↦ rw e (clip-Apart l plan plans h.0, clip-Pairwise l plans h.1)
      | inr e ↦ rw e (clip-Pairwise l plans h.1)
    ]

pub clip_bounds :
    (l : ℕ) (plans : List ZipEntryPlan) → All (λ x. (x.0 < x.1) × (x.1 ≤ l)) (clip_spans l plans)
unfolding clip_spans
clip_bounds l [] = tt
clip_bounds l (plan ∷ plans) =
    elim (Bool-cases (ltb (min plan.source_offset l) (min plan.source_span_end_exclusive l))) [
      | inl e ↦ rw e ((ground arith, ground arith), clip_bounds l plans)
      | inr e ↦ rw e (clip_bounds l plans)
    ]

-- What coalescing keeps.
coalesce_from-Separated :
    (size gap lo start end : ℕ) (xs : List Span)
    → lo ≤ start
    → start < end
    → Separated end xs
    → Separated lo (coalesce_from size gap start end xs)
unfolding coalesce_from
coalesce_from-Separated size gap lo start end [] p q h = (p, q, tt)
coalesce_from-Separated size gap lo start end (x ∷ xs) p q h =
    elim (Bool-cases (leb (x.0 - end) gap && leb (max end x.1 - start) size)) [
      | inl e ↦
          let d : max end x.1 ≡ x.1 = omega (arith, h.0, h.1) in
          let k : Separated (max end x.1) xs = rw d h.2 in
          rw e (coalesce_from-Separated size gap lo start (max end x.1) xs p (omega (arith, q)) k)
      | inr e ↦ rw e (p, q, coalesce_from-Separated size gap end x.0 x.1 xs h.0 h.1 h.2)
    ]

pub coalesce_spans-Separated :
    (size gap : ℕ) (xs : List Span) → Separated 0 xs → Separated 0 (coalesce_spans size gap xs)
unfolding coalesce_spans
coalesce_spans-Separated size gap [] h = tt
coalesce_spans-Separated size gap (x ∷ xs) h =
    coalesce_from-Separated size gap 0 x.0 x.1 xs h.0 h.1 h.2

coalesce_from_bounds :
    (l size gap start end : ℕ) (xs : List Span)
    → start < end
    → end ≤ l
    → All (λ x. (x.0 < x.1) × (x.1 ≤ l)) xs
    → All (λ x. (x.0 < x.1) × (x.1 ≤ l)) (coalesce_from size gap start end xs)
unfolding coalesce_from
coalesce_from_bounds l size gap start end [] p q h = ((p, q), tt)
coalesce_from_bounds l size gap start end (x ∷ xs) p q h =
    elim (Bool-cases (leb (x.0 - end) gap && leb (max end x.1 - start) size)) [
      | inl e ↦ rw e (
          coalesce_from_bounds l size gap start (max end x.1) xs (omega (arith, p))
            (omega (arith, q, h.0.1)) h.1)
      | inr e ↦ rw e ((p, q), coalesce_from_bounds l size gap x.0 x.1 xs h.0.0 h.0.1 h.1)
    ]

pub coalesce_spans_bounds :
    (l size gap : ℕ) (xs : List Span)
    → All (λ x. (x.0 < x.1) × (x.1 ≤ l)) xs
    → All (λ x. (x.0 < x.1) × (x.1 ≤ l)) (coalesce_spans size gap xs)
unfolding coalesce_spans
coalesce_spans_bounds l size gap [] h = tt
coalesce_spans_bounds l size gap (x ∷ xs) h =
    coalesce_from_bounds l size gap x.0 x.1 xs h.0.0 h.0.1 h.1

-- The spans of plans that are apart, in order.
pub planned_spans-Separated :
    (l : ℕ) (plans : List ZipEntryPlan)
    → Pairwise IsApart plans
    → Separated 0 (sort span_before (clip_spans l plans))
planned_spans-Separated l plans h =
    sort-Separated (clip_spans l plans) (clip-Pairwise l plans h)
      (non_empty (clip_spans l plans) (clip_bounds l plans))
  where
    non_empty : (xs : List Span) → All (λ x. (x.0 < x.1) × (x.1 ≤ l)) xs → All (λ x. x.0 < x.1) xs
    non_empty [] h = tt
    non_empty (x ∷ xs) h = (h.0.0, non_empty xs h.1)
