-- ===== src/BlockStore/Claims.antt =====
-- The claims on the blocks of rust/src/s3/archive/block_store.rs: how they are counted first, taken
-- and given up by readers, and added for a replay; and the cancellation of the store.
use shin_bucket_deployment.Prelude.{
  ℕ, zero, suc, ◌-◌, List, [], ◌∷◌, map, true, false, not, ◌&&◌, ◌||◌, Option, none, some, Bytes,
  ◌==◌, if◌then◌else◌, saturating_add, get_elem?, Result, ok, err, ◌>>=◌, ◌>>◌, ensure,
}
use shin_bucket_deployment.Planner.{ZipEntryPlan}
use shin_bucket_deployment.Blocks.{SourceBlockRange, block_indices_for_span}
use shin_bucket_deployment.BlockStore.{
  SourceBlockStatus, pending, released, failed, SourceBlockSlot, SourceBlockState, is_ready,
  is_released, is_failed, is_upcoming, is_some, on_failure, set, with_both, give_back,
}

-- `counts[index] = counts[index].saturating_add(1)`.
unfoldable pub count_claim : List ℕ → ℕ → List ℕ
count_claim [] index = []
count_claim (count ∷ counts) zero = saturating_add count 1 ∷ counts
count_claim (count ∷ counts) (suc index) = count ∷ count_claim counts index

unfoldable pub count_claims : List ℕ → List ℕ → List ℕ
unfolding count_claim
count_claims counts [] = counts
count_claims counts (index ∷ indices) = count_claims (count_claim counts index) indices

unfoldable pub count_plans : List SourceBlockRange → List ZipEntryPlan → List ℕ → List ℕ
unfolding count_claims block_indices_for_span
count_plans blocks [] counts = counts
count_plans blocks (plan ∷ plans) counts = count_plans blocks plans (
    count_claims counts
      (block_indices_for_span blocks plan.source_offset plan.source_span_end_exclusive))

unfoldable pub initial_claim_counts : List SourceBlockRange → List ZipEntryPlan → List ℕ
unfolding count_plans
initial_claim_counts blocks plans = count_plans blocks plans (map (λ _. 0) blocks)

-- The state of a new store.
unfoldable pub new_state : List SourceBlockRange → List ZipEntryPlan → SourceBlockState
unfolding initial_claim_counts
new_state blocks plans = record {
  slots =
      map
        (λ remaining_claims. record {
          remaining_claims = remaining_claims;
          live_claims = 0;
          replay_priority = false;
          budget_permit = none;
          status = pending;
        })
        (initial_claim_counts blocks plans);
  window_committed_bytes = 0;
  resident_bytes = 0;
  failure = none;
}

pub data ClaimError : Type 0 where
  store_failed : Bytes → ClaimError
  unknown_block no_remaining_claims already_released : ClaimError

abbrev claimable : Option SourceBlockSlot → Result ClaimError (Unit {0})
claimable none = err unknown_block
claimable (some slot) =
    ensure (not (slot.remaining_claims == 0)) no_remaining_claims
    >> ensure (not (is_released slot.status)) already_released

-- The first loop of `activate_reader`: every block can be claimed.
unfoldable pub check_claims : List SourceBlockSlot → List ℕ → Result ClaimError (Unit {0})
check_claims slots [] = ok tt
check_claims slots (index ∷ indices) =
    claimable (get_elem? slots index) >> check_claims slots indices

abbrev pub add_live : List SourceBlockSlot → ℕ → Option SourceBlockSlot → List SourceBlockSlot
add_live slots index none = slots
add_live slots index (some slot) =
    set slots index (record slot { live_claims = saturating_add slot.live_claims 1 })

-- The second loop.
unfoldable pub take_claims : List SourceBlockSlot → List ℕ → List SourceBlockSlot
take_claims slots [] = slots
take_claims slots (index ∷ indices) =
    take_claims (add_live slots index (get_elem? slots index)) indices

unfoldable pub activate_reader : List ℕ → SourceBlockState → Result ClaimError SourceBlockState
unfolding check_claims take_claims
activate_reader indices state =
    on_failure state.failure (λ error. err (store_failed error))
      (check_claims state.slots indices >>= λ _.
        ok (record state { slots = take_claims state.slots indices }))

-- The body of the loop of `release_entry_attempt`.
unfoldable pub release_claim :
    ℕ → SourceBlockState → SourceBlockRange → SourceBlockSlot → SourceBlockState
unfolding give_back
release_claim index state block slot =
    let dropped : SourceBlockSlot = record slot { remaining_claims = slot.remaining_claims - 1 } in
    if slot.remaining_claims == 0
    then state
    else if not (dropped.remaining_claims == 0) || not (slot.live_claims == 0)
    then record state { slots = set state.slots index dropped }
    else if is_ready slot.status
    then give_back released index state block dropped
    else if is_upcoming slot.status
    then record state { slots = set state.slots index (record dropped { replay_priority = true }) }
    else record state { slots = set state.slots index dropped }

unfoldable pub release_entry_attempt :
    List SourceBlockRange → List ℕ → SourceBlockState → SourceBlockState
unfolding release_claim
release_entry_attempt blocks [] state = state
release_entry_attempt blocks (index ∷ indices) state = release_entry_attempt blocks indices (
    with_both state (release_claim index state) (get_elem? blocks index)
      (get_elem? state.slots index))

-- A reader is done with a block. What is tested at the end are the counts after the release.
unfoldable pub release_reader :
    ℕ → SourceBlockState → SourceBlockRange → SourceBlockSlot → SourceBlockState
unfolding give_back
release_reader index state block slot =
    let remaining = slot.remaining_claims - 1 in
    let next : SourceBlockSlot = record slot {
      live_claims = slot.live_claims - 1;
      remaining_claims = remaining;
      replay_priority = slot.replay_priority || (remaining == 0 && is_upcoming slot.status);
    } in
    if slot.live_claims == 0
    then state
    else if next.live_claims == 0 && (remaining == 0 && is_ready slot.status)
    then give_back released index state block next
    else record state { slots = set state.slots index next }

unfoldable pub release_block_reader :
    List SourceBlockRange → ℕ → SourceBlockState → SourceBlockState
unfolding release_reader
release_block_reader blocks index state =
    with_both state (release_reader index state) (get_elem? blocks index)
      (get_elem? state.slots index)

abbrev pub replayed_status : SourceBlockStatus → SourceBlockStatus
replayed_status status = if is_released status || is_failed status then pending else status

abbrev pub add_replay : List SourceBlockSlot → ℕ → Option SourceBlockSlot → List SourceBlockSlot
add_replay slots index none = slots
add_replay slots index (some slot) = set slots index (record slot {
  remaining_claims = saturating_add slot.remaining_claims 1;
  replay_priority = true;
  status = replayed_status slot.status;
})

unfoldable pub add_replays : List SourceBlockSlot → List ℕ → List SourceBlockSlot
add_replays slots [] = slots
add_replays slots (index ∷ indices) =
    add_replays (add_replay slots index (get_elem? slots index)) indices

unfoldable pub add_replay_claims :
    List SourceBlockRange → ℕ → ℕ → SourceBlockState → SourceBlockState
unfolding add_replays block_indices_for_span
add_replay_claims blocks start end_exclusive state =
    if is_some state.failure then state else record state {
      slots = add_replays state.slots (block_indices_for_span blocks start end_exclusive);
    }

abbrev first_failure : Option Bytes → Bytes → Bytes
first_failure none reason = reason
first_failure (some error) reason = error

unfoldable pub cancel_slot : Bytes → SourceBlockSlot → SourceBlockSlot
cancel_slot reason slot = record slot {
  budget_permit = none;
  status = if is_released slot.status then slot.status else failed reason;
}

unfoldable pub cancel : Bytes → SourceBlockState → SourceBlockState
unfolding cancel_slot
cancel reason state = record {
  slots = map (cancel_slot reason) state.slots;
  window_committed_bytes = 0;
  resident_bytes = 0;
  failure = some (first_failure state.failure reason);
}
