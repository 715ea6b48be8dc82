-- ===== src/Blocks/Cover.antt =====
-- No byte of a planned entry is lost by sorting, coalescing and cutting the spans
-- (rust/src/s3/archive/block_store.rs).
use mathlib.Core.Path.{subst}
use native.Mathlib.Decide.{dec_lt}
use shin_bucket_deployment.Prelude.{
  ℕ, zero, suc, ◌+◌, ◌-◌, ◌≤◌, ◌<◌, List, [], ◌∷◌, ◌++◌, true, false, ◌&&◌, some, ◌≡◌, ◌⊎◌, inl,
  inr, Bool-cases, arith, min, max, ltb, leb, ◌==◌, ok, u64_max, saturating_add, sort,
  insert_sorted, get_elem?, In, here, there, All, All-sort,
}
use shin_bucket_deployment.Planner.{ZipEntryPlan}
use shin_bucket_deployment.Blocks.{
  SourceBlockRange, Span, span_before, clip_spans, coalesce_from, coalesce_spans, cut_span,
  cut_spans, plan_source_blocks, block_index_at,
}
use shin_bucket_deployment.Blocks.Order.{clip_bounds, coalesce_spans_bounds}
use shin_bucket_deployment.Blocks.Cut.{Laid, plan_source_blocks-planned}
use shin_bucket_deployment.Blocks.Lookup.{Holds, block_index_at-Holds}

abbrev Within : Span → ℕ → Type 0
Within x position = (x.0 ≤ position) × (position < x.1)

abbrev Covers : List Span → ℕ → Type 0
Covers [] position = ⊥
Covers (x ∷ xs) position = Within x position ⊎ Covers xs position

clip-Covers :
    (l : ℕ) (plans : List ZipEntryPlan) (position : ℕ) {plan : ZipEntryPlan}
    → In plan plans
    → plan.source_offset ≤ position
    → position < min plan.source_span_end_exclusive l
    → Covers (clip_spans l plans) position
unfolding clip_spans
clip-Covers l [] p m h k = elim m [ ]
clip-Covers l (x ∷ plans) p {plan = plan} (here d) h k =
    let a : x.source_offset ≤ p = subst (λ y. y.source_offset ≤ p) d h in
    let b : p < min x.source_span_end_exclusive l =
      subst (λ y. p < min y.source_span_end_exclusive l) d k in
    let e : ltb (min x.source_offset l) (min x.source_span_end_exclusive l) ≡ true = ground arith in
    rw e (inl (omega arith, omega arith))
clip-Covers l (x ∷ plans) p {plan = plan} (there m) h k =
    let i = clip-Covers l plans p {plan = plan} m h k in
    elim (Bool-cases (ltb (min x.source_offset l) (min x.source_span_end_exclusive l))) [
      | inl e ↦ rw e (inr i)
      | inr e ↦ rw e i
    ]

insert-Covers_new :
    (x : Span) (xs : List Span) (position : ℕ)
    → Within x position
    → Covers (insert_sorted span_before x xs) position
insert-Covers_new x [] p h = inl h
insert-Covers_new x (y ∷ ys) p h = elim (Bool-cases (span_before x y)) [
  | inl e ↦ rw e (inl h)
  | inr e ↦ rw e (inr (insert-Covers_new x ys p h))
]

insert-Covers_old :
    (x : Span) (xs : List Span) (position : ℕ)
    → Covers xs position
    → Covers (insert_sorted span_before x xs) position
insert-Covers_old x [] p h = absurd h
insert-Covers_old x (y ∷ ys) p h = elim (Bool-cases (span_before x y)) [
  | inl e ↦ rw e (inr h)
  | inr e ↦ rw e (elim h [ inl k ↦ inl k | inr k ↦ inr (insert-Covers_old x ys p k) ])
]

sort-Covers :
    (xs : List Span) (position : ℕ) → Covers xs position → Covers (sort span_before xs) position
sort-Covers [] p h = h
sort-Covers (x ∷ xs) p (inl h) = insert-Covers_new x (sort span_before xs) p h
sort-Covers (x ∷ xs) p (inr h) = insert-Covers_old x (sort span_before xs) p (sort-Covers xs p h)

-- The starts do not descend.
abbrev Ascending : ℕ → List Span → Type 0
Ascending lo [] = Unit
Ascending lo (x ∷ xs) = (lo ≤ x.0) × Ascending x.0 xs

insert-Ascending :
    (lo : ℕ) (x : Span) (xs : List Span)
    → lo ≤ x.0
    → Ascending lo xs
    → Ascending lo (insert_sorted span_before x xs)
insert-Ascending lo x [] p h = (p, tt)
insert-Ascending lo x (y ∷ ys) p h = elim (Bool-cases (span_before x y)) [
  | inl e ↦ rw e (p, (first x y e, h.1))
  | inr e ↦ rw e (h.0, insert-Ascending y.0 x ys (last x y e) h.1)
]
  where
    first : (x y : Span) → span_before x y ≡ true → x.0 ≤ y.0
    first x y e = unfold span_before in ground arith

    last : (x y : Span) → span_before x y ≡ false → y.0 ≤ x.0
    last x y e = unfold span_before in ground arith

sort-Ascending : (xs : List Span) → Ascending 0 (sort span_before xs)
sort-Ascending [] = tt
sort-Ascending (x ∷ xs) =
    insert-Ascending 0 x (sort span_before xs) (omega arith) (sort-Ascending xs)

coalesce_from-Covers :
    (size gap start end : ℕ) (xs : List Span) (position : ℕ)
    → Ascending start xs
    → Within (start, end) position ⊎ Covers xs position
    → Covers (coalesce_from size gap start end xs) position
unfolding coalesce_from
coalesce_from-Covers size gap start end [] p h k = k
coalesce_from-Covers size gap start end (x ∷ xs) p h k =
    elim (Bool-cases (leb (x.0 - end) gap && leb (max end x.1 - start) size)) [
      | inl e ↦ rw e (
          coalesce_from-Covers size gap start (max end x.1) xs p (lower start x.0 xs h.0 h.1)
            (extended k))
      | inr e ↦ rw e (elim k [
        | inl c ↦ inl c
        | inr c ↦ inr (coalesce_from-Covers size gap x.0 x.1 xs p h.1 c)
      ])
    ]
  where
    lower : (lo hi : ℕ) (xs : List Span) → lo ≤ hi → Ascending hi xs → Ascending lo xs
    lower lo hi [] p h = tt
    lower lo hi (x ∷ xs) p h = (omega (arith, p, h.0), h.1)

    extended :
        Within (start, end) p ⊎ Covers (x ∷ xs) p → Within (start, max end x.1) p ⊎ Covers xs p
    extended (inl c) = inl (omega (arith, c.0), omega (arith, c.1))
    extended (inr (inl c)) = inl (omega (arith, h.0, c.0), omega (arith, c.1))
    extended (inr (inr c)) = inr c

coalesce_spans-Covers :
    (size gap : ℕ) (xs : List Span) (position : ℕ)
    → Ascending 0 xs
    → Covers xs position
    → Covers (coalesce_spans size gap xs) position
unfolding coalesce_spans
coalesce_spans-Covers size gap [] p h k = k
coalesce_spans-Covers size gap (x ∷ xs) p h k = coalesce_from-Covers size gap x.0 x.1 xs p h.1 k

cut_span-Holds :
    (size end fuel start position : ℕ) (rest : List SourceBlockRange)
    → 1 ≤ size
    → end ≤ u64_max
    → end ≤ start + fuel
    → Within (start, end) position
    → Holds (cut_span size end fuel start ++ rest) position
unfolding cut_span
cut_span-Holds size end zero start p rest s m f h = absurd (omega (arith, h.0, h.1))
cut_span-Holds size end (suc fuel) start p rest s m f h =
    let e : ltb start end ≡ true = ground (arith, h.0, h.1) in
    rw e (elim (dec_lt p (min (saturating_add start size) end)) [
      | yes l ↦ inl (h.0, l)
      | no l ↦ inr (
          cut_span-Holds size end fuel (min (saturating_add start size) end) p rest s m
            (omega (arith, h.0, h.1)) (omega (arith, l), h.1))
    ])

Holds-append :
    (xs ys : List SourceBlockRange) (position : ℕ) → Holds ys position → Holds (xs ++ ys) position
Holds-append [] ys p h = h
Holds-append (x ∷ xs) ys p h = inr (Holds-append xs ys p h)

cut_spans-Holds :
    (size l : ℕ) (spans : List Span) (position : ℕ)
    → 1 ≤ size
    → l ≤ u64_max
    → All (λ x. (x.0 < x.1) × (x.1 ≤ l)) spans
    → Covers spans position
    → Holds (cut_spans size spans) position
unfolding cut_spans
cut_spans-Holds size l [] p s m k h = h
cut_spans-Holds size l (x ∷ xs) p s m k (inl h) =
    cut_span-Holds size x.1 (x.1 - x.0) x.0 p (cut_spans size xs) s (omega (arith, m, k.0.1))
      (omega arith) h
cut_spans-Holds size l (x ∷ xs) p s m k (inr h) =
    Holds-append (cut_span size x.1 (x.1 - x.0) x.0) (cut_spans size xs) p
      (cut_spans-Holds size l xs p s m k.1 h)

-- If planning succeeds, then `block_index_at` finds, for every byte of the source that lies in the
-- span of a plan, the block that holds it.
pub plan_source_blocks_covers :
    (source_len : ℕ) (plans : List ZipEntryPlan) (block_bytes merge_gap_bytes : ℕ)
    (blocks : List SourceBlockRange) (plan : ZipEntryPlan) (position : ℕ)
    → source_len ≤ u64_max
    → plan_source_blocks source_len plans block_bytes merge_gap_bytes ≡ ok blocks
    → In plan plans
    → plan.source_offset ≤ position
    → position < min plan.source_span_end_exclusive source_len
    → (i : ℕ) × (b : SourceBlockRange) × (block_index_at blocks position ≡ some i)
      × (get_elem? blocks i ≡ some b)
      × (b.start ≤ position)
      × (position < b.end_exclusive)
plan_source_blocks_covers l plans bytes gap blocks plan p m h i q r =
    let size = max bytes 1 in
    let sorted = sort span_before (clip_spans l plans) in
    let bounded =
      coalesce_spans_bounds l size gap sorted
        (All-sort span_before (λ x. (x.0 < x.1) × (x.1 ≤ l)) _ (clip_bounds l plans)) in
    let covered =
      coalesce_spans-Covers size gap sorted p (sort-Ascending (clip_spans l plans))
        (sort-Covers (clip_spans l plans) p (clip-Covers l plans p {plan = plan} i q r)) in
    let held =
      cut_spans-Holds size l (coalesce_spans size gap sorted) p (omega arith) m bounded covered in
    let e : (l == 0) ≡ false = ground arith in
    let (d, laid) = plan_source_blocks-planned l plans bytes gap {blocks = blocks} e h in
    block_index_at-Holds blocks p (subst (Laid 0) d laid) (subst (λ x. Holds x p) d held)
