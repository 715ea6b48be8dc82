-- ===== src/Planner/Expansion.antt =====
-- What `validate_archive_expansion` of rust/src/s3/planner.rs accepts.
use native.Mathlib.Decide.{dec_lt}
use native.Mathlib.Nat.{div-add-mod', mod-lt, mul-le-mul_right}
use shin_bucket_deployment.Prelude.{
  ℕ, ◌+◌, ◌*◌, ◌/◌, ◌%◌, ◌≤◌, ◌<◌, Bool, true, false, ◌&&◌, ◌||◌, ◌≡◌, refl, ◌↔◌, inl, inr,
  Bool-cases, arith, ltb, ◌==◌, if◌then◌else◌, Result, ok, err,
}
use shin_bucket_deployment.Deployment.{ArchiveExpansionLimits}
use shin_bucket_deployment.Planner.{
  PlanError, above_ratio_limit, validate_archive_expansion, s3_single_put_limit,
}

-- A quotient and a remainder compare as their number does with a multiple.
quotient_lt : (u c r q m : ℕ) → q * c + m ≡ u → m < c → q < r → u ≤ r * c
quotient_lt u c r q m e h k = omega (arith, e, h, mul-le-mul_right c k)

quotient_gt : (u c r q m : ℕ) → q * c + m ≡ u → m < c → r < q → u ≤ r * c → ⊥
quotient_gt u c r q m e h k l = omega (arith, e, h, mul-le-mul_right c k, l)

abbrev exceeds : ℕ → ℕ → ℕ → Bool
exceeds r q m = ltb r q || (q == r && ltb 0 m)

exceeds_sound : (u c r q m : ℕ) → q * c + m ≡ u → m < c → exceeds r q m ≡ false → u ≤ r * c
exceeds_sound u c r q m e h k = elim (dec_lt q r) [
  | yes l ↦ quotient_lt u c r q m e h l
  | no l ↦
      let d : q ≡ r = ground arith in
      let z : m ≡ 0 = ground arith in (let w : r * c + m ≡ u = rw d at e in omega arith)
]

exceeds_complete : (u c r q m : ℕ) → q * c + m ≡ u → m < c → exceeds r q m ≡ true → u ≤ r * c → ⊥
exceeds_complete u c r q m e h k l = elim (dec_lt r q) [
  | yes g ↦ quotient_gt u c r q m e h g l
  | no g ↦
      let d : q ≡ r = ground arith in
      let z : 0 < m = ground arith in (let w : r * c + m ≡ u = rw d at e in omega arith)
]

abbrev ratio_checked : ℕ → ℕ → ℕ → Result PlanError (Unit {0})
ratio_checked r q m = if exceeds r q m then err above_ratio_limit else ok tt

ratio_checked_iff : (u c r : ℕ) → 0 < c → (ratio_checked r (u / c) (u % c) ≡ ok tt) ↔ (u ≤ r * c)
ratio_checked_iff u c r h =
    let e = div-add-mod' u c in
    let m = mod-lt u h in
    elim (Bool-cases (exceeds r (u / c) (u % c))) [
      | inl k ↦ rw k (λ z. cc, λ l. absurd (exceeds_complete u c r (u / c) (u % c) e m k l))
      | inr k ↦ rw k (λ _. exceeds_sound u c r (u / c) (u % c) e m k, λ _. refl)
    ]

-- An entry is accepted exactly when its declared size is at most the limit of a single PutObject,
-- at most the configured limit, and at most its compressed size times the configured ratio, of
-- which the quotient and the remainder are an exact test without overflow.
pub validate_archive_expansion_iff :
    (uncompressed_size compressed_size : ℕ) (limits : ArchiveExpansionLimits)
    → (validate_archive_expansion uncompressed_size compressed_size limits ≡ ok tt) ↔ (
        (uncompressed_size ≤ s3_single_put_limit)
        × (uncompressed_size ≤ limits.max_uncompressed_entry_bytes)
        × (uncompressed_size ≤ limits.max_compression_ratio * compressed_size))
unfolding validate_archive_expansion
validate_archive_expansion_iff u c limits = elim (Bool-cases (ltb s3_single_put_limit u)) [
  | inl a ↦ rw a (λ z. cc, λ (p, q, r). absurd (ground arith))
  | inr a ↦ elim (Bool-cases (ltb limits.max_uncompressed_entry_bytes u)) [
    | inl b ↦ rw (a, b) (λ z. cc, λ (p, q, r). absurd (ground arith))
    | inr b ↦ elim (Bool-cases (u == 0)) [
      | inl d ↦ rw (a, b, d) (λ _. (ground arith, ground arith, ground arith), λ _. refl)
      | inr d ↦ elim (Bool-cases (c == 0)) [
        | inl f ↦ rw (a, b, d, f) (λ z. cc, λ (p, q, r). absurd (ground arith))
        | inr f ↦
            let k = ratio_checked_iff u c limits.max_compression_ratio (ground arith) in
            rw (a, b, d, f) (λ z. (ground arith, ground arith, k.0 z), λ (p, q, r). k.1 r)
      ]
    ]
  ]
]
