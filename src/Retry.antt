-- ===== src/Retry.antt =====
-- rust/src/s3/retry.rs: the waits between attempts at a destination write or delete. Times are in
-- milliseconds; the random sample and the clock's readings are arguments.
pub mod Backoff
pub mod Cooldown
use shin_bucket_deployment.Prelude.{
  ℕ, zero, suc, ◌+◌, ◌-◌, ◌*◌, ◌/◌, ◌%◌, ◌^◌, ◌≤◌, ◌<◌, List, [], ◌∷◌, Option, none, some, Bool,
  true, false, ◌==◌, ◌||◌, leb, ltb, min, saturating_add, saturating_mul, u64_max, u32_max,
  if◌then◌else◌,
}
use shin_bucket_deployment.Deployment.{
  PutObjectRetryOptions, PutObjectRetryJitter, full_jitter, no_jitter,
}
use shin_bucket_deployment.Deadline.{instant_add, unwrap_or}

-- `1_u64.checked_shl(shift).unwrap_or(u64::MAX)`.
abbrev pub shift_or_max : ℕ → ℕ
shift_or_max shift = if ltb shift 64 then 2 ^ shift else u64_max

unfoldable pub capped_exponential_backoff_millis : ℕ → ℕ → ℕ → ℕ
capped_exponential_backoff_millis attempt base_millis max_millis =
    let shift = if leb (attempt - 1) u32_max then attempt - 1 else u32_max in
    min (saturating_mul base_millis (shift_or_max shift)) max_millis

unfoldable pub full_jitter_delay : ℕ → ℕ → ℕ
full_jitter_delay cap_millis sample =
    if cap_millis == 0 then 0 else sample % saturating_add cap_millis 1

unfoldable pub retry_cap_millis : ℕ → Bool → PutObjectRetryOptions → ℕ
unfolding capped_exponential_backoff_millis
retry_cap_millis attempt throttled retry =
    if throttled
    then capped_exponential_backoff_millis attempt retry.slowdown_retry_base_delay_ms
        retry.slowdown_retry_max_delay_ms
    else capped_exponential_backoff_millis attempt retry.retry_base_delay_ms
        retry.retry_max_delay_ms

abbrev jittered : PutObjectRetryJitter → ℕ → ℕ → ℕ
jittered full_jitter cap_millis sample = full_jitter_delay cap_millis sample
jittered no_jitter cap_millis sample = cap_millis

-- `RetryCoordinator::retry_delay`, given the random sample.
unfoldable pub retry_delay : ℕ → Bool → PutObjectRetryOptions → ℕ → ℕ
unfolding retry_cap_millis full_jitter_delay
retry_delay attempt throttled retry sample =
    jittered retry.jitter (retry_cap_millis attempt throttled retry) sample

-- `now.checked_add(delay).filter(|wake| *wake < work_deadline)`.
abbrev wake_before : Option ℕ → ℕ → Option ℕ
wake_before none work_deadline = none
wake_before (some wake) work_deadline = if ltb wake work_deadline then some wake else none

unfoldable pub retry_wake_before_deadline : ℕ → ℕ → ℕ → ℕ → Option ℕ
retry_wake_before_deadline last now delay work_deadline =
    wake_before (instant_add last now delay) work_deadline

unfoldable pub is_retryable_http_status : ℕ → Bool
is_retryable_http_status status = (status == 408) || (status == 429) || leb 500 status

-- The coordinator's shared state: until when requests are held back.
abbrev pub ThrottleUntil : Type 0
ThrottleUntil = Option ℕ

abbrev later : ThrottleUntil → ℕ → ThrottleUntil
later none deadline = some deadline
later (some current) deadline = if ltb current deadline then some deadline else some current

unfoldable pub extend_throttle_cooldown : ℕ → ℕ → ℕ → ThrottleUntil → ThrottleUntil
extend_throttle_cooldown last now delay until =
    if delay == 0 then until else later until (unwrap_or (instant_add last now delay) now)

-- One turn of the cooldown loop: go on, give up, or sleep until an instant.
pub data CooldownStep : Type 0 where
  proceed give_up : CooldownStep
  sleep : ℕ → CooldownStep

unfoldable pub cooldown_step : ThrottleUntil → ℕ → ℕ → CooldownStep
cooldown_step none now work_deadline = proceed
cooldown_step (some until) now work_deadline =
    if leb until now then proceed else if leb work_deadline until then give_up else sleep until

-- One turn's surroundings: the clock when the turn reads the state, the state that it reads (other
-- tasks may have extended it while this one slept), and the clock when a sleep ends.
pub record Turn : Type 0 where
  pub now : ℕ
  pub until : ThrottleUntil

-- `wait_for_throttle_cooldown_before_deadline` over the turns that come: whether the request may
-- proceed, and the clock at that time; `none` if the turns given end first.
unfoldable pub cooldown_loop : List Turn → ℕ → Option (Bool × ℕ)
unfolding cooldown_step
cooldown_loop [] work_deadline = none
cooldown_loop (t ∷ turns) work_deadline = elim (cooldown_step t.until t.now work_deadline) [
  | proceed ↦ some (true, t.now)
  | give_up ↦ some (false, t.now)
  | sleep wake ↦ cooldown_loop turns work_deadline
]
