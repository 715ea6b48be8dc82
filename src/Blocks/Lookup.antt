-- ===== src/Blocks/Lookup.antt =====
-- A position and a span find their blocks (rust/src/s3/archive/block_store.rs).
use mathlib.Core.Path.{subst}
use native.Mathlib.Decide.{dec_lt, ℕ_discrete}
use shin_bucket_deployment.Prelude.{
  ℕ, zero, suc, ◌+◌, ◌≤◌, ◌<◌, List, [], ◌∷◌, Bool, true, false, some, ◌≡◌, refl, ◌↔◌, ◌⊎◌, inl,
  inr, Bool-cases, arith, ltb, leb, get_elem?, partition_point, range_from, In, here, there, ltb→lt,
  le→leb, lt→ltb,
}
use shin_bucket_deployment.Blocks.{
  SourceBlockRange, block_index_at, block_at_partition, block_holding, block_indices_for_span,
}
use shin_bucket_deployment.Blocks.Cut.{Laid}

-- Some block holds the position.
abbrev pub Holds : List SourceBlockRange → ℕ → Type 0
Holds [] position = ⊥
Holds (block ∷ blocks) position =
    ((block.start ≤ position) × (position < block.end_exclusive)) ⊎ Holds blocks position

Holds-Laid :
    (lo : ℕ) (blocks : List SourceBlockRange) (position : ℕ)
    → Laid lo blocks
    → Holds blocks position
    → lo ≤ position
Holds-Laid lo [] p h k = absurd k
Holds-Laid lo (b ∷ blocks) p h (inl k) = omega (arith, h.0, k.0)
Holds-Laid lo (b ∷ blocks) p h (inr k) =
    let i = Holds-Laid b.end_exclusive blocks p h.2 k in omega (arith, h.0, h.1)

-- Later blocks start after the position.
partition_starts_past :
    (lo : ℕ) (blocks : List SourceBlockRange) (position : ℕ)
    → Laid lo blocks
    → position < lo
    → partition_point (λ b. leb b.start position) blocks ≡ 0
partition_starts_past lo [] p h k = refl
partition_starts_past lo (b ∷ blocks) p h k =
    let e : leb b.start p ≡ false = ground (arith, h.0) in rw e refl

partition-Holds :
    (lo : ℕ) (blocks : List SourceBlockRange) (position : ℕ)
    → Laid lo blocks
    → Holds blocks position
    → (i : ℕ) × (b : SourceBlockRange) × (partition_point (λ b. leb b.start position) blocks
        ≡ suc i)
      × (get_elem? blocks i ≡ some b)
      × (b.start ≤ position)
      × (position < b.end_exclusive)
partition-Holds lo [] p h k = absurd k
partition-Holds lo (b ∷ blocks) p h (inl k) =
    let e = le→leb b.start p k.0 in
    (0, b, rw (e, partition_starts_past b.end_exclusive blocks p h.2 k.1) refl, refl, k.0, k.1)
partition-Holds lo (b ∷ blocks) p h (inr k) =
    let (i, c, q, g, r, s) = partition-Holds b.end_exclusive blocks p h.2 k in
    let m = Holds-Laid b.end_exclusive blocks p h.2 k in
    let e : leb b.start p ≡ true = ground (arith, h.1, m) in (suc i, c, rw (e, q) refl, g, r, s)

block_at_partition-some :
    (blocks : List SourceBlockRange) (position i : ℕ) (b : SourceBlockRange)
    → get_elem? blocks i ≡ some b
    → position < b.end_exclusive
    → block_at_partition blocks position (suc i) ≡ some i
unfolding block_at_partition block_holding
block_at_partition-some blocks p i b g h = rw (g, lt→ltb p b.end_exclusive h) refl

pub block_index_at-Holds :
    (blocks : List SourceBlockRange) (position : ℕ)
    → Laid 0 blocks
    → Holds blocks position
    → (i : ℕ) × (b : SourceBlockRange) × (block_index_at blocks position ≡ some i)
      × (get_elem? blocks i ≡ some b)
      × (b.start ≤ position)
      × (position < b.end_exclusive)
unfolding block_index_at
block_index_at-Holds blocks p h k =
    let (i, b, q, g, r, s) = partition-Holds 0 blocks p h k in
    (i, b, rw q (block_at_partition-some blocks p i b g s), g, r, s)

Laid-get :
    (lo : ℕ) (blocks : List SourceBlockRange) (i : ℕ) {b : SourceBlockRange}
    → Laid lo blocks
    → get_elem? blocks i ≡ some b
    → (lo ≤ b.start) × (b.start < b.end_exclusive)
Laid-get lo [] i h e = cc
Laid-get lo (a ∷ blocks) zero {b = b} h e =
    let d : a ≡ b = cc in subst (λ x. (lo ≤ x.start) × (x.start < x.end_exclusive)) d (h.0, h.1)
Laid-get lo (a ∷ blocks) (suc i) h e =
    let k = Laid-get a.end_exclusive blocks i h.2 e in (omega (arith, h.0, h.1, k.0), k.1)

partition_point-get :
    (p : SourceBlockRange → Bool) (blocks : List SourceBlockRange) (i : ℕ)
    → i < partition_point p blocks
    → (b : SourceBlockRange) × (get_elem? blocks i ≡ some b)
partition_point-get p [] i h = absurd (omega arith)
partition_point-get p (b ∷ blocks) zero h = (b, refl)
partition_point-get p (b ∷ blocks) (suc i) h = elim (Bool-cases (p b)) [
  | inl e ↦ partition_point-get p blocks i (let z = rw e at h in omega (arith, z))
  | inr e ↦ let z = rw e at h in absurd (omega (arith, z))
]

-- A test that holds of every block before one it holds of cuts the blocks in two.
abbrev Closed : (SourceBlockRange → Bool) → Type 0
Closed t =
    (a b : SourceBlockRange)
    → a.start < a.end_exclusive
    → a.end_exclusive ≤ b.start
    → b.start < b.end_exclusive
    → t b ≡ true
    → t a ≡ true

module _ (t : SourceBlockRange → Bool) (closed : Closed t) where
  partition_head :
      (a : SourceBlockRange) (blocks : List SourceBlockRange)
      → (0 < partition_point t (a ∷ blocks)) ↔ (t a ≡ true)
  partition_head a blocks = elim (Bool-cases (t a)) [
    | inl e ↦ rw e (λ _. refl, λ _. omega arith)
    | inr e ↦ rw e (λ k. absurd (omega arith), λ k. cc)
  ]

  partition_point_iff :
      (lo : ℕ) (blocks : List SourceBlockRange) (i : ℕ) {b : SourceBlockRange}
      → Laid lo blocks
      → get_elem? blocks i ≡ some b
      → (i < partition_point t blocks) ↔ (t b ≡ true)
  partition_point_iff lo [] i h e = cc
  partition_point_iff lo (a ∷ blocks) zero {b = b} h e =
      let d : a ≡ b = cc in
      subst (λ x. (0 < partition_point t (a ∷ blocks)) ↔ (t x ≡ true)) d (partition_head a blocks)
  partition_point_iff lo (a ∷ blocks) (suc i) {b = b} h e =
      let k = partition_point_iff a.end_exclusive blocks i h.2 e in
      let m = Laid-get a.end_exclusive blocks i h.2 e in
      elim (Bool-cases (t a)) [
        | inl f ↦ rw f (λ q. k.0 (omega arith), λ q. let z = k.1 q in omega arith)
        | inr f ↦ rw f (
          λ q. absurd (omega arith),
          λ q. let z = closed a b h.1 m.0 m.1 q in absurd (ground arith),
        )
      ]

In-range_from_sound : (lo n i : ℕ) → In i (range_from lo n) → (lo ≤ i) × (i < lo + n)
In-range_from_sound lo zero i m = elim m [ ]
In-range_from_sound lo (suc n) i (here e) = (omega arith, omega arith)
In-range_from_sound lo (suc n) i (there m) =
    let z = In-range_from_sound (suc lo) n i m in (omega arith, omega arith)

In-range_from_complete : (lo n i : ℕ) → lo ≤ i → i < lo + n → In i (range_from lo n)
In-range_from_complete lo zero i h k = absurd (omega arith)
In-range_from_complete lo (suc n) i h k = elim (ℕ_discrete i lo) [
  | yes e ↦ here e
  | no ne ↦ there (In-range_from_complete (suc lo) n i (omega arith) (omega arith))
]

abbrev Overlaps : List SourceBlockRange → ℕ → ℕ → ℕ → Type 0
Overlaps blocks start end_exclusive i =
    (b : SourceBlockRange) × (get_elem? blocks i ≡ some b)
    × (b.start < end_exclusive)
    × (start < b.end_exclusive)

module _ (blocks : List SourceBlockRange) (s e i : ℕ) (laid : Laid 0 blocks) where
  starts_iff :
      (b : SourceBlockRange)
      → get_elem? blocks i ≡ some b
      → (i < partition_point (λ b. ltb b.start e) blocks) ↔ (ltb b.start e ≡ true)
  starts_iff b g =
      partition_point_iff (λ b. ltb b.start e) (λ a b p q r f. ground (arith, p, q, f)) 0 blocks i
        laid g

  ends_iff :
      (b : SourceBlockRange)
      → get_elem? blocks i ≡ some b
      → (i < partition_point (λ b. leb b.end_exclusive s) blocks) ↔ (leb b.end_exclusive s ≡ true)
  ends_iff b g =
      partition_point_iff (λ b. leb b.end_exclusive s) (λ a b p q r f. ground (arith, q, r, f)) 0
        blocks i laid g

  indices_sound : s < e → In i (block_indices_for_span blocks s e) → Overlaps blocks s e i
  unfolding block_indices_for_span
  indices_sound k m =
      let f : leb e s ≡ false = ground arith in
      let (p, q) = In-range_from_sound _ _ i (rw f at m) in
      let inside : i < partition_point (λ b. ltb b.start e) blocks = omega arith in
      let (b, g) = partition_point-get (λ b. ltb b.start e) blocks i inside in
      let start = (starts_iff b g).0 inside in
      let end = (ends_iff b g).1 in
      (
        b,
        g,
        ltb→lt b.start e start,
        elim (Bool-cases (leb b.end_exclusive s)) [
          | inl x ↦ let z = end x in absurd (omega arith)
          | inr x ↦ ground arith
        ],
      )

  indices_complete : s < e → Overlaps blocks s e i → In i (block_indices_for_span blocks s e)
  unfolding block_indices_for_span
  indices_complete k (b, g, p, q) =
      let f : leb e s ≡ false = ground arith in
      let start = (starts_iff b g).1 (lt→ltb b.start e p) in
      let end : partition_point (λ b. leb b.end_exclusive s) blocks ≤ i =
        (elim (dec_lt i (partition_point (λ b. leb b.end_exclusive s) blocks)) [
          | yes l ↦ let z = (ends_iff b g).0 l in absurd (ground arith)
          | no l ↦ omega arith
        ]) in
      rw f (In-range_from_complete _ _ i (omega arith) (omega arith))

-- Where the blocks are laid out, the indices of a span that is not empty are exactly those of the
-- blocks that have a byte in common with it.
pub block_indices_for_span_iff :
    (blocks : List SourceBlockRange) (start end_exclusive i : ℕ)
    → Laid 0 blocks
    → start < end_exclusive
    → In i (block_indices_for_span blocks start end_exclusive) ↔ (
        (b : SourceBlockRange) × (get_elem? blocks i ≡ some b)
        × (b.start < end_exclusive)
        × (start < b.end_exclusive))
block_indices_for_span_iff blocks s e i h k =
    (indices_sound blocks s e i h k, indices_complete blocks s e i h k)
