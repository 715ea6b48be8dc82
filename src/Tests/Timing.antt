-- ===== src/Tests/Timing.antt =====
-- Runs of the deadlines, the backoff and the cooldown (rust/src/deadline.rs, rust/src/s3/retry.rs).
use shin_bucket_deployment.Prelude.{
  ◌+◌, ◌-◌, ◌*◌, ◌^◌, ◌≤◌, ◌<◌, List, [], ◌∷◌, some, true, false, ◌≡◌, ◌↔◌, refl, arith, min, In,
  leb, if◌then◌else◌,
}
use shin_bucket_deployment.Deadline.{
  InvocationDeadlines, from_remaining_at, deadline_at, task_drain_budget, deadlines_ordered,
  drain_deadline_shared,
}
use shin_bucket_deployment.Retry.{
  capped_exponential_backoff_millis, retry_delay, retry_wake_before_deadline,
  extend_throttle_cooldown, Turn, cooldown_loop,
}
use shin_bucket_deployment.Retry.Backoff.{
  max_delay, capped_exponential_backoff-exact, retry_delay-le-max, retry_wake_iff,
}
use shin_bucket_deployment.Retry.Cooldown.{
  held_until, Answers, extend_throttle_cooldown-covers, cooldown_loop_sound, stable_cooldown_ends,
}
use shin_bucket_deployment.Tests.Data.{the_retry}

-- The deadlines of an invocation with five minutes left.
abbrev five_minutes : InvocationDeadlines
five_minutes = from_remaining_at 1000000 1000 300000

deadlines_ordered_example :
    (1000 ≤ five_minutes.work)
    × (five_minutes.work ≤ five_minutes.task_drain)
    × (five_minutes.task_drain ≤ five_minutes.drain)
    × (five_minutes.drain ≤ five_minutes.callback)
deadlines_ordered_example = deadlines_ordered 1000000 1000 300000

drain_deadline_shared_example :
    let (a, budget) = deadline_at 1000000 200000 (task_drain_budget five_minutes) in
    (a ≤ five_minutes.task_drain) × (a ≤ 205000) × (deadline_at 1000000 230000 budget ≡ (a, budget))
drain_deadline_shared_example =
    drain_deadline_shared 1000000 200000 230000 five_minutes (omega arith)

capped_exponential_backoff-exact_example :
    capped_exponential_backoff_millis 5 250 5000 ≡ min (250 * 2 ^ (5 - 1)) 5000
capped_exponential_backoff-exact_example = capped_exponential_backoff-exact 5 250 5000 (omega arith)

retry_delay-le-max_example : retry_delay 9 true the_retry 123456 ≤ max_delay true the_retry
retry_delay-le-max_example = retry_delay-le-max 9 true the_retry 123456

retry_wake_iff_example :
    (retry_wake_before_deadline 1000000 1000 250 2000 ≡ some 1250)
    ↔ ((1250 ≡ 1000 + 250) × (1250 < 2000))
retry_wake_iff_example = retry_wake_iff 1000000 1000 250 2000 1250 (omega arith)

extend_throttle_cooldown-covers_example :
    let extended = extend_throttle_cooldown 1000000 1000 250 (some 1100) in
    (held_until (some 1100) ≤ held_until extended) × (1250 ≤ held_until extended)
extend_throttle_cooldown-covers_example =
    extend_throttle_cooldown-covers 1000000 1000 250 (some 1100) (omega arith) (omega arith)

-- The cooldown is extended while the first sleep lasts.
abbrev two_turns : List Turn
two_turns = record { now = 0; until = some 50 } ∷ record { now = 50; until = some 500 } ∷ []

gives_up : cooldown_loop two_turns 400 ≡ some (false, 50)
unfolding cooldown_loop
gives_up = refl

cooldown_loop_sound_example : (t : Turn) × In t two_turns × Answers false 50 400 t
cooldown_loop_sound_example = cooldown_loop_sound two_turns 400 {go = false} {at = 50} gives_up

stable_cooldown_ends_example :
    cooldown_loop
      (record { now = 0; until = some 50 } ∷ record { now = 60; until = some 50 } ∷ [])
      400
    ≡ some (if leb 50 0 then (true, 0) else if leb 400 50 then (false, 0) else (true, 60))
stable_cooldown_ends_example = stable_cooldown_ends 0 60 400 50 (omega arith)
