-- ===== src/BlockStore/Failure.antt =====
-- A failed block store stays failed and holds nothing, and a reservation waits for nothing but other
-- blocks (rust/src/s3/archive/block_store.rs).
use shin_bucket_deployment.Prelude.{
  ℕ, ◌≤◌, List, [], ◌∷◌, Bool, true, false, not, ◌||◌, Option, none, some, Option-cases, Bytes, ◌≡◌,
  refl, ◌∙◌, inl, inr, Bool-cases, arith, get_elem?, u64_max, Result, ok, err, All, >>=-eq-ok,
}
use shin_bucket_deployment.Planner.{ZipEntryPlan}
use shin_bucket_deployment.Blocks.{SourceBlockRange, plan_source_blocks}
use shin_bucket_deployment.BlockStore.{
  SourceBlockSlot, SourceBlockState, SourceFetchMode, ReserveOutcome, not_needed, refused, is_some,
  on_failure, when_some, with_both, is_fetching, reserve_slot, reserve_begin, deny_slot,
  reserve_denied, grant_slot, reserve_granted, rollback_slot, rollback_fetch, give_back,
  finish_slot, finish_fetch,
}
use shin_bucket_deployment.BlockStore.Claims.{
  check_claims, activate_reader, release_claim, release_entry_attempt, release_reader,
  release_block_reader, add_replay_claims, cancel, new_state, store_failed,
}
use shin_bucket_deployment.BlockStore.Steps.{
  Step, begin, deny, grant, rollback, finish, activate, release_attempt, release_block, replay,
  fail, Reach, start, later,
}
use shin_bucket_deployment.BlockStore.Accounts.{
  committed_of, resident_of, total, is_ended, EachHeld,
}
use shin_bucket_deployment.BlockStore.Sections.{
  with_both-elim, on_failure-elim, when_some-elim, ended_holds, weights_idle,
}
use shin_bucket_deployment.BlockStore.Safety.{block_store-IsAccounted}

-- The sections other than the cancellation leave the failure.
module _ (i : ℕ) (s : SourceBlockState) (block : SourceBlockRange) (slot : SourceBlockSlot) where
  reserve_slot-failure :
      (w : ℕ) (mode : SourceFetchMode) → (reserve_slot w mode i s block slot).1.failure ≡ s.failure
  unfolding reserve_slot
  reserve_slot-failure w mode = ground arith

  deny_slot-failure : (error : Bytes) → (deny_slot error i s block slot).failure ≡ s.failure
  unfolding deny_slot
  deny_slot-failure error = ground arith

  grant_slot-failure : (grant_slot i s block slot).failure ≡ s.failure
  unfolding grant_slot
  grant_slot-failure = ground arith

  rollback_slot-failure :
      (restore : Bool) → (rollback_slot restore i s block slot).failure ≡ s.failure
  unfolding rollback_slot
  rollback_slot-failure restore = ground arith

  finish_slot-failure :
      (result : Result Bytes Bytes) → (finish_slot result i s block slot).failure ≡ s.failure
  unfolding finish_slot give_back
  finish_slot-failure (ok bytes) = ground arith
  finish_slot-failure (err error) = refl

  release_claim-failure : (release_claim i s block slot).failure ≡ s.failure
  unfolding release_claim give_back
  release_claim-failure = ground arith

  release_reader-failure : (release_reader i s block slot).failure ≡ s.failure
  unfolding release_reader give_back
  release_reader-failure = ground arith

release_entry_attempt-failure :
    (blocks : List SourceBlockRange) (indices : List ℕ) (s : SourceBlockState)
    → (release_entry_attempt blocks indices s).failure ≡ s.failure
unfolding release_entry_attempt
release_entry_attempt-failure blocks [] s = refl
release_entry_attempt-failure blocks (i ∷ indices) s =
    release_entry_attempt-failure blocks indices _
    ∙ with_both-elim (λ x. x.failure ≡ s.failure) s (release_claim i s) (get_elem? blocks i)
        (get_elem? s.slots i) refl (λ b x _ _. release_claim-failure i s b x)

activate_reader-failure :
    (indices : List ℕ) (s : SourceBlockState) {t : SourceBlockState}
    → activate_reader indices s ≡ ok t
    → s.failure ≡ t.failure
unfolding activate_reader
activate_reader-failure indices s {t = t} =
    on_failure-elim (λ x. x ≡ ok t → s.failure ≡ t.failure) s.failure
      (λ error. err (store_failed error)) _ (λ error _ k. cc)
      (λ _ k. let (_, _, g) = >>=-eq-ok (check_claims s.slots indices) _ k in cc)

module _ (blocks : List SourceBlockRange) (window_bytes : ℕ) (s : SourceBlockState) where
  on_slot-failure :
      (i : ℕ) (f : SourceBlockRange → SourceBlockSlot → SourceBlockState)
      → ((b : SourceBlockRange) (x : SourceBlockSlot) → (f b x).failure ≡ s.failure)
      → (with_both s f (get_elem? blocks i) (get_elem? s.slots i)).failure ≡ s.failure
  on_slot-failure i f h =
      with_both-elim (λ x. x.failure ≡ s.failure) s f (get_elem? blocks i) (get_elem? s.slots i)
        refl (λ b x _ _. h b x)

  begin-failure :
      (mode : SourceFetchMode) (i : ℕ)
      → (reserve_begin blocks window_bytes mode i s).1.failure ≡ s.failure
  unfolding reserve_begin
  begin-failure mode i =
      when_some-elim {B = ReserveOutcome × SourceBlockState} (λ x. x.1.failure ≡ s.failure)
        (get_elem? blocks i) (not_needed, s) _ refl
        (on_failure-elim {A = ReserveOutcome × SourceBlockState} (λ x. x.1.failure ≡ s.failure)
          s.failure (λ error. (refused error, s)) _ (λ _ _. refl)
          (λ _.
            with_both-elim {A = ReserveOutcome × SourceBlockState} (λ x. x.1.failure ≡ s.failure)
              (not_needed, s) (reserve_slot window_bytes mode i s) (get_elem? blocks i)
              (get_elem? s.slots i) refl
              (λ b x _ _. reserve_slot-failure i s b x window_bytes mode)))

  denied-failure : (error : Bytes) (i : ℕ) → (reserve_denied blocks error i s).failure ≡ s.failure
  unfolding reserve_denied
  denied-failure error i =
      on_slot-failure i (deny_slot error i s) (λ b x. deny_slot-failure i s b x error)

  rollback-failure :
      (restore : Bool) (i : ℕ) → (rollback_fetch blocks restore i s).failure ≡ s.failure
  unfolding rollback_fetch
  rollback-failure restore i =
      on_slot-failure i (rollback_slot restore i s) (λ b x. rollback_slot-failure i s b x restore)

  finish-failure :
      (result : Result Bytes Bytes) (i : ℕ) → (finish_fetch blocks result i s).failure ≡ s.failure
  unfolding finish_fetch
  finish-failure result i = on_slot-failure i _ (λ b x.
      elim (Bool-cases (is_some s.failure || not (is_fetching x.status))) [
        | inl e ↦ rw e refl
        | inr e ↦ rw e (finish_slot-failure i s b x result)
      ])

  released-failure : (i : ℕ) → (release_block_reader blocks i s).failure ≡ s.failure
  unfolding release_block_reader
  released-failure i =
      on_slot-failure i (release_reader i s) (λ b x. release_reader-failure i s b x)

  -- A step leaves the failure, or is the cancellation.
  Step-failure :
      {t : SourceBlockState}
      → Step blocks window_bytes s t
      → is_some s.failure ≡ true
      → is_some t.failure ≡ true
  Step-failure (begin mode i) h = rw (begin-failure mode i) h
  Step-failure (deny error i) h = rw (denied-failure error i) h
  Step-failure (grant i) h = unfold reserve_granted in rw h h
  Step-failure (rollback restore i) h = rw (rollback-failure restore i) h
  Step-failure (finish result i) h = rw (finish-failure result i) h
  Step-failure (activate indices t e) h = rw (activate_reader-failure indices s {t = t} e) at h
  Step-failure (release_attempt indices) h = rw (release_entry_attempt-failure blocks indices s) h
  Step-failure (release_block i) h = rw (released-failure i) h
  Step-failure (replay from to) h = unfold add_replay_claims in rw h h
  Step-failure (fail reason) h = unfold cancel in refl

Reach-failure :
    (blocks : List SourceBlockRange) (window_bytes : ℕ) {s t : SourceBlockState}
    → Reach blocks window_bytes s t
    → is_some s.failure ≡ true
    → is_some t.failure ≡ true
Reach-failure blocks w start h = h
Reach-failure blocks w (later {t = t} r st) h =
    Step-failure blocks w t st (Reach-failure blocks w r h)

append_reach :
    (blocks : List SourceBlockRange) (window_bytes : ℕ) {s t u : SourceBlockState}
    → Reach blocks window_bytes s t
    → Reach blocks window_bytes t u
    → Reach blocks window_bytes s u
append_reach blocks w r start = r
append_reach blocks w r (later q st) = later (append_reach blocks w r q) st

-- Slots that have ended count for nothing.
ended_idle :
    (blocks : List SourceBlockRange) (slots : List SourceBlockSlot)
    → EachHeld blocks slots
    → All (λ slot. is_ended slot.status ≡ true) slots
    → (total committed_of blocks slots ≡ 0)
      × (total resident_of blocks slots ≡ 0)
      × All (λ slot. slot.budget_permit ≡ none) slots
ended_idle [] [] h k = (refl, refl, tt)
ended_idle [] (x ∷ slots) h k = absurd h
ended_idle (b ∷ blocks) [] h k = absurd h
ended_idle (b ∷ blocks) (x ∷ slots) h k =
    let (n, _, c) = ended_holds x.status k.0 in
    let (u, v) = weights_idle b x c n in
    let (p, q, r) = ended_idle blocks slots h.1 k.1 in
    (omega (arith, u, p), omega (arith, v, q), (rw n at h.0.permit, r))

on_failure-some {ℓ} :
    {A : Type ℓ} (failure : Option Bytes) (f : Bytes → A) (other : A) (error : Bytes)
    → failure ≡ some error
    → on_failure failure f other ≡ f error
on_failure-some failure f other error e = rw e refl

when_some-some {ℓ κ} :
    {A : Type ℓ} {B : Type κ} (o : Option A) (other next : B) {a : A}
    → o ≡ some a
    → when_some o other next ≡ next
when_some-some o other next e = rw e refl

failed_begin :
    (blocks : List SourceBlockRange) (window_bytes : ℕ) (mode : SourceFetchMode) (i : ℕ)
    (s : SourceBlockState) {block : SourceBlockRange}
    → get_elem? blocks i ≡ some block
    → is_some s.failure ≡ true
    → (error : Bytes) × (reserve_begin blocks window_bytes mode i s ≡ (refused error, s))
unfolding reserve_begin
failed_begin blocks w mode i s {block = block} g h = elim (Option-cases s.failure) [
  | inl e ↦ let z : false ≡ true = rw e at h in cc
  | inr (error, e) ↦ (
    error,
    when_some-some (get_elem? blocks i) _ _ {a = block} g ∙ on_failure-some s.failure _ _ error e,
  )
]

-- Once the block store of a plan was cancelled, whatever the tasks still do: nothing is committed or
-- resident, no slot holds a permit of the budget, and every reservation of a block is refused with an error.
pub cancelled_store_idle :
    (source_len : ℕ) (plans : List ZipEntryPlan) (block_bytes merge_gap_bytes : ℕ)
    (blocks : List SourceBlockRange) (window_bytes : ℕ) (s t : SourceBlockState) (reason : Bytes)
    (mode : SourceFetchMode) (i : ℕ) (block : SourceBlockRange)
    → source_len ≤ u64_max
    → plan_source_blocks source_len plans block_bytes merge_gap_bytes ≡ ok blocks
    → Reach blocks window_bytes (new_state blocks plans) s
    → Reach blocks window_bytes (cancel reason s) t
    → get_elem? blocks i ≡ some block
    → (t.window_committed_bytes ≡ 0)
      × (t.resident_bytes ≡ 0)
      × All (λ slot. slot.budget_permit ≡ none) t.slots
      × ((error : Bytes) × (reserve_begin blocks window_bytes mode i t ≡ (refused error, t)))
cancelled_store_idle l plans bytes gap blocks w s t reason mode i block m h r q g =
    let reach = append_reach blocks w (later r (fail reason)) q in
    let a = block_store-IsAccounted l plans bytes gap blocks w t m h reach in
    let f = Reach-failure blocks w q (unfold cancel in refl) in
    let (u, v, p) = ended_idle blocks t.slots a.held (a.ended f) in
    (a.window ∙ u, a.resident ∙ v, p, failed_begin blocks w mode i t {block = block} g f)
