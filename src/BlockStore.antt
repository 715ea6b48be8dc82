-- ===== src/BlockStore.antt =====
-- The state of `SourceBlockStore` in rust/src/s3/archive/block_store.rs: what each lock section does
-- to it. A section reads and writes the state at once, and between two sections any other may run.
-- The permit of the shared budget is the number of bytes that it was acquired for. Notifications and
-- diagnostics are left out, since no section reads them.
pub mod Claims
pub mod Steps
pub mod Accounts
pub mod Sections
pub mod Readers
pub mod Loops
pub mod Start
pub mod Safety
pub mod Failure
pub mod Waiting
use shin_bucket_deployment.Prelude.{
  ℕ, zero, suc, ◌+◌, ◌-◌, List, [], ◌∷◌, map, Bool, true, false, not, ◌&&◌, ◌||◌, Option, none,
  some, Bytes, max, leb, ◌==◌, if◌then◌else◌, saturating_add, get_elem?, Result, ok, err,
}
use shin_bucket_deployment.Planner.{ZipEntryPlan}
use shin_bucket_deployment.Blocks.{SourceBlockRange, block_len, block_indices_for_span}

pub data SourceBlockStatus : Type 0 where
  pending reserving fetching : SourceBlockStatus
  ready : Bytes → SourceBlockStatus
  released : SourceBlockStatus
  failed : Bytes → SourceBlockStatus

pub record SourceBlockSlot : Type 0 where
  pub remaining_claims : ℕ
  pub live_claims : ℕ
  pub replay_priority : Bool
  pub budget_permit : Option ℕ
  pub status : SourceBlockStatus

pub record SourceBlockState : Type 0 where
  pub slots : List SourceBlockSlot
  pub window_committed_bytes : ℕ
  pub resident_bytes : ℕ
  pub failure : Option Bytes

pub data SourceFetchMode : Type 0 where
  prefetch demand : SourceFetchMode

-- The `matches!` of the sections.
abbrev pub is_pending : SourceBlockStatus → Bool
is_pending pending = true
is_pending _ = false

abbrev pub is_reserving : SourceBlockStatus → Bool
is_reserving reserving = true
is_reserving _ = false

abbrev pub is_fetching : SourceBlockStatus → Bool
is_fetching fetching = true
is_fetching _ = false

abbrev pub is_ready : SourceBlockStatus → Bool
is_ready (ready bytes) = true
is_ready _ = false

abbrev pub is_released : SourceBlockStatus → Bool
is_released released = true
is_released _ = false

abbrev pub is_failed : SourceBlockStatus → Bool
is_failed (failed error) = true
is_failed _ = false

-- `Pending | Reserving | Fetching`.
abbrev pub is_upcoming : SourceBlockStatus → Bool
is_upcoming status = is_pending status || (is_reserving status || is_fetching status)

abbrev pub is_demand : SourceFetchMode → Bool
is_demand demand = true
is_demand prefetch = false

-- `slots[index] = slot`.
abbrev pub set : List SourceBlockSlot → ℕ → SourceBlockSlot → List SourceBlockSlot
set [] index slot = []
set (x ∷ slots) zero slot = slot ∷ slots
set (x ∷ slots) (suc index) slot = x ∷ set slots index slot

-- The block and the slot of an index, or the default where there is none.
abbrev pub with_both {ℓ} :
    {A : Type ℓ}
    → A
    → (SourceBlockRange → SourceBlockSlot → A)
    → Option SourceBlockRange
    → Option SourceBlockSlot
    → A
with_both other f (some block) (some slot) = f block slot
with_both other f none slot = other
with_both other f (some block) none = other

-- `if let Some(error) = &state.failure`.
abbrev pub on_failure {ℓ} : {A : Type ℓ} → Option Bytes → (Bytes → A) → A → A
on_failure none f other = other
on_failure (some error) f other = f error

-- An early return where there is no block.
abbrev pub when_some {ℓ κ} : {A : Type ℓ} {B : Type κ} → Option A → B → B → B
when_some none other next = other
when_some (some a) other next = next

abbrev pub is_some {ℓ} : {A : Type ℓ} → Option A → Bool
is_some none = false
is_some (some a) = true

-- What `reserve_fetch` does after its lock section: return, wait for capacity, or go on with the
-- reservation and the priority that a rollback restores.
pub data ReserveOutcome : Type 0 where
  refused : Bytes → ReserveOutcome
  not_needed wait_for_capacity : ReserveOutcome
  reserved : (restore_replay_priority : Bool) → ReserveOutcome

-- The test of the window: a replay on demand borrows from the shared budget.
unfoldable pub is_admitted :
    ℕ → SourceFetchMode → SourceBlockRange → SourceBlockSlot → SourceBlockState → Bool
unfolding block_len
is_admitted window_bytes mode block slot state =
    (is_demand mode && slot.replay_priority)
    || leb (saturating_add state.window_committed_bytes (block_len block))
        (max window_bytes (block_len block))

unfoldable pub reserve_slot :
    ℕ
    → SourceFetchMode
    → ℕ
    → SourceBlockState
    → SourceBlockRange
    → SourceBlockSlot
    → ReserveOutcome × SourceBlockState
unfolding is_admitted block_len
reserve_slot window_bytes mode index state block slot =
    if slot.remaining_claims == 0 || not (is_pending slot.status)
    then (not_needed, state)
    else if is_admitted window_bytes mode block slot state
    then (
      reserved slot.replay_priority,
      record state {
        slots = set state.slots index (record slot { replay_priority = false; status = reserving });
        window_committed_bytes = saturating_add state.window_committed_bytes (block_len block);
      },
    )
    else (wait_for_capacity, state)

-- The first lock section of `reserve_fetch`.
unfoldable pub reserve_begin :
    List SourceBlockRange
    → ℕ
    → SourceFetchMode
    → ℕ
    → SourceBlockState
    → ReserveOutcome × SourceBlockState
unfolding reserve_slot
reserve_begin blocks window_bytes mode index state =
    when_some (get_elem? blocks index) (not_needed, state)
      (on_failure state.failure (λ error. (refused error, state))
        (with_both (not_needed, state) (reserve_slot window_bytes mode index state)
          (get_elem? blocks index) (get_elem? state.slots index)))

-- The section after the budget refused the permit.
unfoldable pub deny_slot :
    Bytes → ℕ → SourceBlockState → SourceBlockRange → SourceBlockSlot → SourceBlockState
unfolding block_len
deny_slot error index state block slot =
    if is_reserving slot.status
    then record state {
      slots = set state.slots index (record slot { status = failed error });
      window_committed_bytes = state.window_committed_bytes - block_len block;
    }
    else state

unfoldable pub reserve_denied :
    List SourceBlockRange → Bytes → ℕ → SourceBlockState → SourceBlockState
unfolding deny_slot
reserve_denied blocks error index state =
    with_both state (deny_slot error index state) (get_elem? blocks index)
      (get_elem? state.slots index)

-- The section after the budget gave the permit.
unfoldable pub grant_slot :
    ℕ → SourceBlockState → SourceBlockRange → SourceBlockSlot → SourceBlockState
unfolding block_len
grant_slot index state block slot =
    if slot.remaining_claims == 0 || not (is_reserving slot.status)
    then if is_reserving slot.status
      then record state {
        slots = set state.slots index (record slot { status = released });
        window_committed_bytes = state.window_committed_bytes - block_len block;
      }
      else state
    else record state {
      slots =
          set state.slots index
            (record slot { budget_permit = some (block_len block); status = fetching });
      resident_bytes = saturating_add state.resident_bytes (block_len block);
    }

unfoldable pub reserve_granted : List SourceBlockRange → ℕ → SourceBlockState → SourceBlockState
unfolding grant_slot
reserve_granted blocks index state =
    if is_some state.failure
    then state
    else with_both state (grant_slot index state) (get_elem? blocks index)
        (get_elem? state.slots index)

unfoldable pub rollback_slot :
    Bool → ℕ → SourceBlockState → SourceBlockRange → SourceBlockSlot → SourceBlockState
unfolding block_len
rollback_slot restore_replay_priority index state block slot =
    let priority = slot.replay_priority || restore_replay_priority in
    if is_reserving slot.status
    then record state {
      slots = set state.slots index (record slot { replay_priority = priority; status = pending });
      window_committed_bytes = state.window_committed_bytes - block_len block;
    }
    else if is_fetching slot.status
    then record state {
      slots =
          set state.slots index
            (record slot { replay_priority = priority; budget_permit = none; status = pending });
      window_committed_bytes = state.window_committed_bytes - block_len block;
      resident_bytes = state.resident_bytes - block_len block;
    }
    else state

unfoldable pub rollback_fetch :
    List SourceBlockRange → Bool → ℕ → SourceBlockState → SourceBlockState
unfolding rollback_slot
rollback_fetch blocks restore_replay_priority index state =
    with_both state (rollback_slot restore_replay_priority index state) (get_elem? blocks index)
      (get_elem? state.slots index)

-- A slot gives its bytes back and takes a status.
unfoldable pub give_back :
    SourceBlockStatus → ℕ → SourceBlockState → SourceBlockRange → SourceBlockSlot → SourceBlockState
unfolding block_len
give_back status index state block slot = record state {
  slots = set state.slots index (record slot { budget_permit = none; status = status });
  window_committed_bytes = state.window_committed_bytes - block_len block;
  resident_bytes = state.resident_bytes - block_len block;
}

unfoldable pub finish_slot :
    Result Bytes Bytes
    → ℕ
    → SourceBlockState
    → SourceBlockRange
    → SourceBlockSlot
    → SourceBlockState
unfolding give_back
finish_slot (ok bytes) index state block slot =
    if slot.remaining_claims == 0 && slot.live_claims == 0
    then give_back released index state block slot
    else record state { slots = set state.slots index (record slot { status = ready bytes }) }
finish_slot (err error) index state block slot = give_back (failed error) index state block slot

unfoldable pub finish_fetch :
    List SourceBlockRange → Result Bytes Bytes → ℕ → SourceBlockState → SourceBlockState
unfolding finish_slot
finish_fetch blocks result index state =
    with_both state
      (λ block slot.
        if is_some state.failure || not (is_fetching slot.status)
        then state
        else finish_slot result index state block slot)
      (get_elem? blocks index) (get_elem? state.slots index)
