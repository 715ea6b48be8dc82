-- ===== src/Retry/Backoff.antt =====
-- The delays are bounded, grow with the attempts, and match the closed formula (rust/src/s3/retry.rs).
use native.Mathlib.Nat.{pow-le-pow_right}
use shin_bucket_deployment.Prelude.{
  ℕ, zero, suc, ◌+◌, ◌-◌, ◌*◌, ◌^◌, ◌≤◌, ◌<◌, some, Bool, true, false, ◌≡◌, ◌↔◌, arith, leb, ltb,
  min, inl, inr, Bool-cases, saturating_mul, u64_max, u32_max, if◌then◌else◌,
}
use shin_bucket_deployment.Deployment.{
  PutObjectRetryOptions, PutObjectRetryJitter, full_jitter, no_jitter,
}
use shin_bucket_deployment.Retry.{
  capped_exponential_backoff_millis, full_jitter_delay, retry_cap_millis, jittered, retry_delay,
  retry_wake_before_deadline,
}

-- The configured maximum for the kind of failure.
abbrev pub max_delay : Bool → PutObjectRetryOptions → ℕ
max_delay throttled retry =
    if throttled then retry.slowdown_retry_max_delay_ms else retry.retry_max_delay_ms

full_jitter_delay-le : (cap sample : ℕ) → full_jitter_delay cap sample ≤ cap
unfolding full_jitter_delay
full_jitter_delay-le cap sample = grind arith

capped-le-max :
    (attempt base max_millis : ℕ)
    → capped_exponential_backoff_millis attempt base max_millis ≤ max_millis
unfolding capped_exponential_backoff_millis
capped-le-max attempt base max_millis = omega arith

retry_cap-le-max :
    (attempt : ℕ) (throttled : Bool) (retry : PutObjectRetryOptions)
    → retry_cap_millis attempt throttled retry ≤ max_delay throttled retry
unfolding retry_cap_millis
retry_cap-le-max attempt true retry = capped-le-max attempt _ _
retry_cap-le-max attempt false retry = capped-le-max attempt _ _

-- No delay is longer than the configured maximum, with jitter or without, for any sample.
pub retry_delay-le-max :
    (attempt : ℕ) (throttled : Bool) (retry : PutObjectRetryOptions) (sample : ℕ)
    → retry_delay attempt throttled retry sample ≤ max_delay throttled retry
unfolding retry_delay
retry_delay-le-max attempt throttled retry sample =
    by_jitter retry.jitter (retry_cap-le-max attempt throttled retry)
  where
    by_jitter :
        (j : PutObjectRetryJitter)
        → retry_cap_millis attempt throttled retry ≤ max_delay throttled retry
        → jittered j (retry_cap_millis attempt throttled retry) sample ≤ max_delay throttled retry
    by_jitter full_jitter h =
        omega (arith, full_jitter_delay-le (retry_cap_millis attempt throttled retry) sample)
    by_jitter no_jitter h = h

-- The formula's product once the shift is known.
product_small :
    (s base m : ℕ) → m ≤ u64_max → min (saturating_mul base (2 ^ s)) m ≡ min (base * 2 ^ s) m
product_small s base m h = omega arith

product_large :
    (x base m : ℕ)
    → m ≤ u64_max
    → u64_max ≤ x
    → min (saturating_mul base u64_max) m ≡ min (base * x) m
product_large x zero m h k = omega arith
product_large x (suc b) m h k = omega (arith, saturated)
  where
    saturated : m ≤ suc b * x
    saturated = grind arith

two_pow_large : (s : ℕ) → 64 ≤ s → u64_max ≤ 2 ^ s
two_pow_large s h = let e : 2 ^ 64 ≤ 2 ^ s = pow-le-pow_right (omega arith) h in omega (arith, e)

-- The saturating code computes base * 2^(attempt - 1) capped at the maximum, without overflow, for
-- every attempt; attempt 0 counts as attempt 1.
pub capped_exponential_backoff-exact :
    (attempt base max_millis : ℕ)
    → max_millis ≤ u64_max
    → capped_exponential_backoff_millis attempt base max_millis
      ≡ min (base * 2 ^ (attempt - 1)) max_millis
unfolding capped_exponential_backoff_millis
capped_exponential_backoff-exact attempt base m h = elim (Bool-cases (leb (attempt - 1) u32_max)) [
  | inr e ↦
      rw e (product_large (2 ^ (attempt - 1)) base m h (two_pow_large (attempt - 1) (ground arith)))
  | inl e ↦ rw e (elim (Bool-cases (ltb (attempt - 1) 64)) [
    | inl f ↦ rw f (product_small (attempt - 1) base m h)
    | inr f ↦
        rw f
          (product_large (2 ^ (attempt - 1)) base m h (two_pow_large (attempt - 1) (ground arith)))
  ])
]

-- A retry is scheduled exactly when its whole delay ends strictly before the work deadline, and it
-- is scheduled for the end of that delay.
pub retry_wake_iff :
    (last now delay work_deadline wake : ℕ)
    → work_deadline ≤ last
    → (retry_wake_before_deadline last now delay work_deadline ≡ some wake)
      ↔ ((wake ≡ now + delay) × (wake < work_deadline))
unfolding retry_wake_before_deadline
retry_wake_iff last now delay work_deadline wake h = (λ e. ground arith, λ w. ground arith)
