-- ===== src/Planner/Offsets.antt =====
-- The sorted offsets that `validate_archive_directory` of rust/src/s3/planner.rs returns, and the
-- spans that are cut at them.
use native.Mathlib.Decide.{dec_lt}
use shin_bucket_deployment.Prelude.{
  ℕ, suc, ◌≤◌, ◌<◌, List, [], ◌∷◌, map, true, ◌≡◌, ◌≢◌, ◌⊎◌, inl, inr, Bool-cases, arith, leb,
  leb→le, ◌==◌, ok, ◌>>◌, >>=-eq-ok, ensure, ensure-eq-ok, sort, insert_sorted, In-sort,
  All_of_sort, Pairwise, All, In, here, there,
}
use shin_bucket_deployment.Planner.{
  StoredZipEntry, ensure_unique_source_offsets, next_source_offset, unwrap_or, source_span_end,
  validate_archive_directory, check_entries, directory_beyond_source,
}

abbrev pub Ascending : ℕ → List ℕ → Type 0
Ascending lo [] = Unit
Ascending lo (x ∷ xs) = (lo ≤ x) × Ascending x xs

abbrev Strict : ℕ → List ℕ → Type 0
Strict lo [] = Unit
Strict lo (x ∷ xs) = (lo ≤ x) × Strict (suc x) xs

insert-Ascending :
    (lo x : ℕ) (xs : List ℕ) → lo ≤ x → Ascending lo xs → Ascending lo (insert_sorted leb x xs)
insert-Ascending lo x [] p h = (p, tt)
insert-Ascending lo x (y ∷ ys) p h = elim (Bool-cases (leb x y)) [
  | inl e ↦ rw e (p, (ground arith, h.1))
  | inr e ↦ rw e (h.0, insert-Ascending y x ys (ground arith) h.1)
]

pub sort-Ascending : (xs : List ℕ) → Ascending 0 (sort leb xs)
sort-Ascending [] = tt
sort-Ascending (x ∷ xs) = insert-Ascending 0 x (sort leb xs) (omega arith) (sort-Ascending xs)

unique-Strict :
    (lo : ℕ) (xs : List ℕ) {u : Unit {0}}
    → Ascending lo xs
    → ensure_unique_source_offsets xs ≡ ok u
    → Strict lo xs
unfolding ensure_unique_source_offsets
unique-Strict lo [] h e = tt
unique-Strict lo (a ∷ []) h e = (h.0, tt)
unique-Strict lo (a ∷ b ∷ xs) h e = elim (Bool-cases (a == b)) [
  | inl f ↦ let z = rw f at e in cc
  | inr f ↦
      let i = unique-Strict a (b ∷ xs) h.1 (rw (f, ensure_unique_source_offsets) at e) in
      (h.0, (ground (arith, f, i.0), i.1))
]

Strict-differ : (lo x : ℕ) (xs : List ℕ) → x < lo → Strict lo xs → All (λ y. x ≢ y) xs
Strict-differ lo x [] p h = tt
Strict-differ lo x (y ∷ ys) p h =
    (λ e. omega (arith, p, h.0, e), Strict-differ (suc y) x ys (omega (arith, p, h.0)) h.1)

-- What is strictly ascending after an insertion does not hold what was inserted before.
Strict-insert :
    (lo x : ℕ) (xs : List ℕ)
    → Strict lo (insert_sorted leb x xs)
    → (lo ≤ x) × All (λ y. x ≢ y) xs × Strict lo xs
Strict-insert lo x [] h = (h.0, tt, tt)
Strict-insert lo x (y ∷ ys) h = elim (Bool-cases (leb x y)) [
  | inl e ↦
      let k : (lo ≤ x) × Strict (suc x) (y ∷ ys) = rw e at h in
      (k.0, Strict-differ (suc x) x (y ∷ ys) (omega arith) k.1, (omega (arith, k.0, k.1.0), k.1.1))
  | inr e ↦
      let k : (lo ≤ y) × Strict (suc y) (insert_sorted leb x ys) = rw e at h in
      let i = Strict-insert (suc y) x ys k.1 in
      (omega (arith, k.0, i.0), (λ d. omega (arith, i.0, d), i.1), (k.0, i.2))
]

Strict-distinct : (xs : List ℕ) → Strict 0 (sort leb xs) → Pairwise (λ a b. a ≢ b) xs
Strict-distinct [] h = tt
Strict-distinct (x ∷ xs) h =
    let i = Strict-insert 0 x (sort leb xs) h in
    (All_of_sort leb (λ y. x ≢ y) xs i.1, Strict-distinct xs i.2)

-- Distinct once sorted, distinct before.
pub unique_offsets :
    (xs : List ℕ) {u : Unit {0}}
    → ensure_unique_source_offsets (sort leb xs) ≡ ok u
    → Pairwise (λ a b. a ≢ b) xs
unique_offsets xs h = Strict-distinct xs (unique-Strict 0 (sort leb xs) (sort-Ascending xs) h)

Ascending-In : (lo : ℕ) (xs : List ℕ) {x : ℕ} → Ascending lo xs → In x xs → lo ≤ x
Ascending-In lo [] h m = elim m [ ]
Ascending-In lo (y ∷ xs) h (here e) = omega (arith, h.0, e)
Ascending-In lo (y ∷ xs) h (there m) = omega (arith, h.0, Ascending-In y xs h.1 m)

-- The next offset is at most any later one.
next_source_offset-le :
    (lo d a b : ℕ) (xs : List ℕ)
    → Ascending lo xs
    → In b xs
    → a < b
    → unwrap_or (next_source_offset xs a) d ≤ b
unfolding next_source_offset
next_source_offset-le lo d a b [] h m k = elim m [ ]
next_source_offset-le lo d a b (x ∷ xs) h m k = elim (Bool-cases (leb x a)) [
  | inl e ↦ rw e (next_source_offset-le x d a b xs h.1 (later m e) k)
  | inr e ↦ rw e (first m)
]
  where
    later : In b (x ∷ xs) → leb x a ≡ true → In b xs
    later (here f) e = absurd (ground arith)
    later (there m) e = m

    first : In b (x ∷ xs) → x ≤ b
    first (here f) = omega arith
    first (there m) = Ascending-In x xs h.1 m

-- A plan whose span runs from a local header to the next.
abbrev pub IsCut : List ℕ → ℕ → ℕ → ℕ → Type 0
IsCut offsets directory start end =
    In start offsets × (end ≡ source_span_end (sort leb offsets) directory start)

-- Spans cut at different offsets are apart.
pub cut_apart :
    (offsets : List ℕ) (directory a a' b b' : ℕ)
    → IsCut offsets directory a a'
    → IsCut offsets directory b b'
    → a ≢ b
    → (a' ≤ b) ⊎ (b' ≤ a)
unfolding source_span_end
cut_apart offsets d a a' b b' (m, e) (n, f) ne =
    let s = sort-Ascending offsets in
    elim (dec_lt a b) [
      | yes l ↦
          let k = next_source_offset-le 0 d a b (sort leb offsets) s (In-sort leb offsets n) l in
          inl (omega (arith, e, k))
      | no g ↦
          let l : b < a = (elim (dec_lt b a) [ yes l ↦ l | no q ↦ absurd (ne (omega arith)) ]) in
          let k = next_source_offset-le 0 d b a (sort leb offsets) s (In-sort leb offsets m) l in
          inr (omega (arith, f, k))
    ]

-- What an accepted directory gives.
pub validate_archive_directory_unique :
    (entries : List StoredZipEntry) (source_len directory : ℕ) {offsets : List ℕ}
    → validate_archive_directory entries source_len directory ≡ ok offsets
    → (offsets ≡ sort leb (map (λ entry. entry.header_offset) entries))
      × (directory ≤ source_len)
      × Pairwise (λ a b. a ≢ b) (map (λ entry. entry.header_offset) entries)
unfolding validate_archive_directory
validate_archive_directory_unique entries l d h =
    let sorted = sort leb (map (λ entry. entry.header_offset) entries) in
    let bounded = ensure (leb d l) directory_beyond_source in
    let checked = check_entries d (0, 0) entries in
    let (_, a, e) =
      >>=-eq-ok (bounded >> checked >> ensure_unique_source_offsets sorted) (λ _. ok sorted) h in
    let (_, b, f) = >>=-eq-ok (bounded >> checked) (λ _. ensure_unique_source_offsets sorted) a in
    let (_, c, g) = >>=-eq-ok bounded (λ _. checked) b in
    (cc, leb→le d l (ensure-eq-ok (leb d l) _ c), unique_offsets _ f)
