-- ===== src/BlockStore/Waiting.antt =====
-- A reservation waits for nothing but other blocks (rust/src/s3/archive/block_store.rs).
use shin_bucket_deployment.Prelude.{
  ℕ, suc, ◌≤◌, ◌<◌, List, [], ◌∷◌, true, false, not, ◌&&◌, ◌||◌, none, some, ◌≡◌, refl, inl, inr,
  Bool-cases, arith, ◌==◌, get_elem?, u64_max, ok, ||_false,
}
use shin_bucket_deployment.Planner.{ZipEntryPlan}
use shin_bucket_deployment.Blocks.{SourceBlockRange, plan_source_blocks}
use shin_bucket_deployment.BlockStore.{
  SourceBlockSlot, SourceBlockState, SourceFetchMode, ReserveOutcome, wait_for_capacity, not_needed,
  refused, is_pending, is_demand, is_admitted, reserve_slot, reserve_begin,
}
use shin_bucket_deployment.BlockStore.Claims.{new_state}
use shin_bucket_deployment.BlockStore.Steps.{Reach}
use shin_bucket_deployment.BlockStore.Accounts.{committed_of, total, commits}
use shin_bucket_deployment.BlockStore.Sections.{with_both-elim, on_failure-elim, when_some-elim}
use shin_bucket_deployment.BlockStore.Safety.{block_store-IsAccounted}

some_committed :
    (blocks : List SourceBlockRange) (slots : List SourceBlockSlot)
    → 0 < total committed_of blocks slots
    → (j : ℕ) × (slot : SourceBlockSlot) × (get_elem? slots j ≡ some slot)
      × (commits slot.status ≡ true)
some_committed [] slots h = absurd (omega arith)
some_committed (b ∷ blocks) [] h = absurd (omega arith)
some_committed (b ∷ blocks) (x ∷ slots) h = elim (Bool-cases (commits x.status)) [
  | inl e ↦ (0, x, refl, e)
  | inr e ↦
      let z : committed_of b x ≡ 0 = (unfold committed_of in rw e refl) in
      let (j, slot, g, c) = some_committed blocks slots (omega (arith, h, z)) in (suc j, slot, g, c)
]

full_window :
    (window_bytes : ℕ) (mode : SourceFetchMode) (block : SourceBlockRange) (slot : SourceBlockSlot)
    (s : SourceBlockState)
    → is_admitted window_bytes mode block slot s ≡ false
    → 0 < s.window_committed_bytes
unfolding is_admitted
full_window w mode block slot s h =
    let (_, e) = ||_false (is_demand mode && slot.replay_priority) _ h in ground (arith, e)

reserve_slot-waits :
    (window_bytes : ℕ) (mode : SourceFetchMode) (i : ℕ) (s : SourceBlockState)
    (block : SourceBlockRange) (slot : SourceBlockSlot) {t : SourceBlockState}
    → reserve_slot window_bytes mode i s block slot ≡ (wait_for_capacity, t)
    → 0 < s.window_committed_bytes
unfolding reserve_slot
reserve_slot-waits w mode i s block slot h =
    elim (Bool-cases (slot.remaining_claims == 0 || not (is_pending slot.status))) [
      | inl e ↦ let z = rw e at h in cc
      | inr e ↦ elim (Bool-cases (is_admitted w mode block slot s)) [
        | inl f ↦ let z = rw (e, f) at h in cc
        | inr f ↦ full_window w mode block slot s f
      ]
    ]

-- In the store of a plan, whatever the tasks did before: where a reservation is told to wait for
-- capacity, the store has not failed and some block is reserved, fetched or ready, so that the
-- capacity waited for is in use; a reservation never waits on an idle store.
pub waiting_is_not_idle :
    (source_len : ℕ) (plans : List ZipEntryPlan) (block_bytes merge_gap_bytes : ℕ)
    (blocks : List SourceBlockRange) (window_bytes : ℕ) (s t : SourceBlockState)
    (mode : SourceFetchMode) (i : ℕ)
    → source_len ≤ u64_max
    → plan_source_blocks source_len plans block_bytes merge_gap_bytes ≡ ok blocks
    → Reach blocks window_bytes (new_state blocks plans) s
    → reserve_begin blocks window_bytes mode i s ≡ (wait_for_capacity, t)
    → (s.failure ≡ none)
      × ((j : ℕ) × (slot : SourceBlockSlot) × (get_elem? s.slots j ≡ some slot)
          × (commits slot.status ≡ true))
unfolding reserve_begin
waiting_is_not_idle l plans bytes gap blocks w s t mode i m h r q =
    let a = block_store-IsAccounted l plans bytes gap blocks w s m h r in
    let (alive, full) = waited q in
    (alive, some_committed blocks s.slots (omega (arith, full, a.window)))
  where
    waited :
        reserve_begin blocks w mode i s ≡ (wait_for_capacity, t)
        → (s.failure ≡ none) × (0 < s.window_committed_bytes)
    waited =
        when_some-elim {B = ReserveOutcome × SourceBlockState}
          (λ x. x ≡ (wait_for_capacity, t) → (s.failure ≡ none) × (0 < s.window_committed_bytes))
          (get_elem? blocks i) (not_needed, s) _ (λ k. cc)
          (on_failure-elim {A = ReserveOutcome × SourceBlockState}
            (λ x. x ≡ (wait_for_capacity, t) → (s.failure ≡ none) × (0 < s.window_committed_bytes))
            s.failure (λ error. (refused error, s)) _ (λ _ _ k. cc)
            (λ e.
              with_both-elim {A = ReserveOutcome × SourceBlockState}
                (λ x.
                  x ≡ (wait_for_capacity, t) → (s.failure ≡ none) × (0 < s.window_committed_bytes))
                (not_needed, s) (reserve_slot w mode i s) (get_elem? blocks i) (get_elem? s.slots i)
                (λ k. cc) (λ b x _ _ k. (e, reserve_slot-waits w mode i s b x k))))
