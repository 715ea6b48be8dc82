-- ===== src/Retry/Cooldown.antt =====
-- The shared throttle cooldown (rust/src/s3/retry.rs).
use shin_bucket_deployment.Prelude.{
  ℕ, ◌+◌, ◌≤◌, ◌<◌, List, [], ◌∷◌, none, some, Bool, true, false, ◌≡◌, ◌⊎◌, inl, inr, refl, arith,
  leb, In, here, there, if◌then◌else◌,
}
use shin_bucket_deployment.Retry.{ThrottleUntil, extend_throttle_cooldown, Turn, cooldown_loop}

-- The time up to which a cooldown holds requests back; 0 if there is none.
abbrev pub held_until : ThrottleUntil → ℕ
held_until none = 0
held_until (some until) = until

-- Extending a cooldown by a positive delay that the clock can reach never shortens it, and holds
-- requests back for the whole new delay.
pub extend_throttle_cooldown-covers :
    (last now delay : ℕ) (until : ThrottleUntil)
    → now + delay ≤ last
    → 0 < delay
    → let extended = extend_throttle_cooldown last now delay until in
      (held_until until ≤ held_until extended) × (now + delay ≤ held_until extended)
unfolding extend_throttle_cooldown
extend_throttle_cooldown-covers last now delay none h k = ground arith
extend_throttle_cooldown-covers last now delay (some current) h k = ground arith

-- What an answer of the loop means for a turn: the request proceeds only when no cooldown holds, and
-- is given up only when the cooldown reaches the work deadline.
abbrev pub Answers : Bool → ℕ → ℕ → Turn → Type 0
Answers true at work_deadline t = (t.now ≡ at) × (held_until t.until ≤ at)
Answers false at work_deadline t =
    (t.now ≡ at) × (at < held_until t.until) × (work_deadline ≤ held_until t.until)

step_Answers :
    (t : Turn) (work_deadline : ℕ) (turns : List Turn) {go : Bool} {at : ℕ}
    → (until : ThrottleUntil) → t.until ≡ until
    → cooldown_loop (t ∷ turns) work_deadline ≡ some (go, at)
    → Answers go at work_deadline t ⊎ (cooldown_loop turns work_deadline ≡ some (go, at))
unfolding cooldown_loop
step_Answers t work_deadline turns {go = true} none e h = inl (ground arith)
step_Answers t work_deadline turns {go = false} none e h = absurd (ground arith)
step_Answers t work_deadline turns {go = true} (some u) e h = ground arith
step_Answers t work_deadline turns {go = false} (some u) e h = ground arith

-- Whatever other tasks do to the shared cooldown between the turns, the loop's answer is right at
-- one of its turns: it proceeds at a moment when no cooldown holds, and gives up at a moment when
-- the cooldown lasts until the work deadline or longer.
pub cooldown_loop_sound :
    (turns : List Turn) (work_deadline : ℕ) {go : Bool} {at : ℕ}
    → cooldown_loop turns work_deadline ≡ some (go, at)
    → (t : Turn) × In t turns × Answers go at work_deadline t
cooldown_loop_sound [] work_deadline h = unfold cooldown_loop in cc
cooldown_loop_sound (t ∷ turns) work_deadline {go} {at} h =
    elim (step_Answers t work_deadline turns {go = go} {at = at} t.until refl h) [
      | inl a ↦ (t, here refl, a)
      | inr k ↦
          let (u, m, a) = cooldown_loop_sound turns work_deadline {go = go} {at = at} k in
          (u, there m, a)
    ]

-- A cooldown that nobody extends costs one sleep at most: with a wake-up no earlier than its end the
-- loop has answered by its second turn.
pub stable_cooldown_ends :
    (first wake work_deadline until : ℕ)
    → until ≤ wake
    → cooldown_loop
        (record { now = first; until = some until }
          ∷ record { now = wake; until = some until }
          ∷ [])
        work_deadline
      ≡ some (
          if leb until first
          then (true, first)
          else if leb work_deadline until
          then (false, first)
          else (true, wake))
unfolding cooldown_loop
stable_cooldown_ends first wake work_deadline until h = ground arith
