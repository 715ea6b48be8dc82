-- ===== src/Deadline.antt =====
-- rust/src/deadline.rs: the deadlines of one invocation, in milliseconds of the monotonic clock.
-- `Instant::checked_add` fails past the clock's last instant, which is an argument.
use shin_bucket_deployment.Prelude.{
  ℕ, ◌+◌, ◌-◌, ◌≤◌, Option, none, some, ◌≡◌, arith, leb, checked_sub, max, min, if◌then◌else◌,
}

abbrev pub callback_reserve_ms : ℕ
callback_reserve_ms = 45000

abbrev pub task_drain_timeout_ms : ℕ
task_drain_timeout_ms = 5000

abbrev pub task_drain_backstop_guard_ms : ℕ
task_drain_backstop_guard_ms = 1000

pub record InvocationDeadlines : Type 0 where
  pub work : ℕ
  pub task_drain : ℕ
  pub drain : ℕ
  pub callback : ℕ

abbrev pub unwrap_or : Option ℕ → ℕ → ℕ
unwrap_or none d = d
unwrap_or (some n) d = n

-- `Instant::checked_add`, on a clock whose last instant is `last`.
abbrev pub instant_add : ℕ → ℕ → ℕ → Option ℕ
instant_add last now delay = if leb (now + delay) last then some (now + delay) else none

-- A deadline moved earlier, but not before now.
abbrev pub pull_back : ℕ → ℕ → ℕ → ℕ
pull_back now deadline by_ms = max (unwrap_or (checked_sub deadline by_ms) now) now

unfoldable pub from_remaining_at : ℕ → ℕ → ℕ → InvocationDeadlines
from_remaining_at last now remaining =
    let callback = unwrap_or (instant_add last now remaining) now in
    let drain = pull_back now callback callback_reserve_ms in
    let task_drain = pull_back now drain task_drain_backstop_guard_ms in
    let work = pull_back now task_drain task_drain_timeout_ms in
    record { work = work; task_drain = task_drain; drain = drain; callback = callback }

-- `from_lambda_deadline`: the wall clock gives the time that remains, none if it has passed.
unfoldable pub from_lambda_deadline : ℕ → ℕ → ℕ → ℕ → InvocationDeadlines
unfolding from_remaining_at
from_lambda_deadline last now wall_now wall_deadline =
    from_remaining_at last now (wall_deadline - wall_now)

pub record TaskDrainBudget : Type 0 where
  pub final_deadline : ℕ
  pub started_deadline : Option ℕ

unfoldable pub task_drain_budget : InvocationDeadlines → TaskDrainBudget
task_drain_budget d = record { final_deadline = d.task_drain; started_deadline = none }

-- `TaskDrainBudget::deadline` at the time `now`: the first call fixes the deadline for all.
unfoldable pub deadline_at : ℕ → ℕ → TaskDrainBudget → ℕ × TaskDrainBudget
deadline_at last now budget = elim budget.started_deadline [
  | some started ↦ (started, budget)
  | none ↦
      let fresh =
        min (unwrap_or (instant_add last now task_drain_timeout_ms) budget.final_deadline)
          budget.final_deadline in
      (fresh, record budget { started_deadline = some fresh })
]

-- The deadlines stand in order, work, drain of tasks, end of processing, callback, and none lies in
-- the past, however little time remains.
pub deadlines_ordered :
    (last now remaining : ℕ)
    → let d = from_remaining_at last now remaining in
      (now ≤ d.work) × (d.work ≤ d.task_drain) × (d.task_drain ≤ d.drain) × (d.drain ≤ d.callback)
unfolding from_remaining_at
deadlines_ordered last now remaining = ground arith

-- Every later call returns the first call's deadline, which is at most 5 seconds after that call and
-- never past the invocation's own limit for draining tasks, where the clock reaches 5 seconds on.
pub drain_deadline_shared :
    (last first later : ℕ) (d : InvocationDeadlines)
    → first + 5000 ≤ last
    → let (a, budget) = deadline_at last first (task_drain_budget d) in
      (a ≤ d.task_drain) × (a ≤ first + 5000) × (deadline_at last later budget ≡ (a, budget))
unfolding deadline_at task_drain_budget
drain_deadline_shared last first later d h = ground arith
