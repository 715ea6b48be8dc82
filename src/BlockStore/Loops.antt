-- ===== src/BlockStore/Loops.antt =====
-- The loops over the claims and the cancellation (rust/src/s3/archive/block_store.rs) keep the
-- accounts.
use mathlib.Core.Path.{subst}
use shin_bucket_deployment.Prelude.{
  ℕ, zero, suc, List, [], ◌∷◌, map, true, false, Option, none, some, Bytes, ◌≡◌, refl, sym, inl,
  inr, Bool-cases, arith, get_elem?, ok, err, >>=-eq-ok, All,
}
use shin_bucket_deployment.Blocks.{SourceBlockRange, block_indices_for_span}
use shin_bucket_deployment.BlockStore.{SourceBlockSlot, SourceBlockState, is_released, is_some}
use shin_bucket_deployment.BlockStore.Claims.{
  check_claims, add_live, take_claims, activate_reader, release_claim, release_entry_attempt,
  release_reader, release_block_reader, add_replay, add_replays, add_replay_claims, cancel_slot,
  cancel, store_failed,
}
use shin_bucket_deployment.BlockStore.Accounts.{
  is_ended, committed_of, resident_of, total, IsHeld, EachHeld, IsAccounted,
}
use shin_bucket_deployment.BlockStore.Sections.{with_both-elim, on_failure-elim}
use shin_bucket_deployment.BlockStore.Readers.{
  release_claim-IsAccounted, release_reader-IsAccounted, add_live-IsAccounted,
  add_replay-IsAccounted,
}
use shin_bucket_deployment.BlockStore.Sections.{ended_holds, weights_idle}

-- Each slot has its block.
EachHeld-block :
    (blocks : List SourceBlockRange) (slots : List SourceBlockSlot) (i : ℕ) {slot : SourceBlockSlot}
    → EachHeld blocks slots
    → get_elem? slots i ≡ some slot
    → (block : SourceBlockRange) × (get_elem? blocks i ≡ some block)
EachHeld-block [] [] i h e = cc
EachHeld-block [] (s ∷ slots) i h e = absurd h
EachHeld-block (b ∷ blocks) [] i h e = cc
EachHeld-block (b ∷ blocks) (s ∷ slots) zero h e = (b, refl)
EachHeld-block (b ∷ blocks) (s ∷ slots) (suc i) h e = EachHeld-block blocks slots i h.1 e

module _ (blocks : List SourceBlockRange) where
  take_claims-IsAccounted :
      (s : SourceBlockState) (indices : List ℕ)
      → IsAccounted blocks s
      → IsAccounted blocks (record s { slots = take_claims s.slots indices })
  unfolding take_claims
  take_claims-IsAccounted s [] h = h
  take_claims-IsAccounted s (i ∷ indices) h =
      take_claims-IsAccounted (record s { slots = add_live s.slots i (get_elem? s.slots i) })
        indices (taken (get_elem? s.slots i) refl)
    where
      taken :
          (o : Option SourceBlockSlot)
          → get_elem? s.slots i ≡ o
          → IsAccounted blocks (record s { slots = add_live s.slots i o })
      taken none e = h
      taken (some slot) e =
          let (block, f) = EachHeld-block blocks s.slots i {slot = slot} h.held e in
          add_live-IsAccounted blocks s i block slot f e h

  add_replays-IsAccounted :
      (s : SourceBlockState) (indices : List ℕ)
      → is_some s.failure ≡ false
      → IsAccounted blocks s
      → IsAccounted blocks (record s { slots = add_replays s.slots indices })
  unfolding add_replays
  add_replays-IsAccounted s [] a h = h
  add_replays-IsAccounted s (i ∷ indices) a h =
      add_replays-IsAccounted (record s { slots = add_replay s.slots i (get_elem? s.slots i) })
        indices a (added (get_elem? s.slots i) refl)
    where
      added :
          (o : Option SourceBlockSlot)
          → get_elem? s.slots i ≡ o
          → IsAccounted blocks (record s { slots = add_replay s.slots i o })
      added none e = h
      added (some slot) e =
          let (block, f) = EachHeld-block blocks s.slots i {slot = slot} h.held e in
          add_replay-IsAccounted blocks s i block slot f e h a

  pub release_entry_attempt-IsAccounted :
      (indices : List ℕ) (s : SourceBlockState)
      → IsAccounted blocks s
      → IsAccounted blocks (release_entry_attempt blocks indices s)
  unfolding release_entry_attempt
  release_entry_attempt-IsAccounted [] s h = h
  release_entry_attempt-IsAccounted (i ∷ indices) s h =
      release_entry_attempt-IsAccounted indices _ (
        with_both-elim (IsAccounted blocks) s (release_claim i s) (get_elem? blocks i)
          (get_elem? s.slots i) h (λ b x e f. release_claim-IsAccounted blocks s i b x e f h))

  module _ (s : SourceBlockState) (h : IsAccounted blocks s) where
    pub release_block_reader-IsAccounted :
        (i : ℕ) → IsAccounted blocks (release_block_reader blocks i s)
    unfolding release_block_reader
    release_block_reader-IsAccounted i =
        with_both-elim (IsAccounted blocks) s (release_reader i s) (get_elem? blocks i)
          (get_elem? s.slots i) h (λ b x e f. release_reader-IsAccounted blocks s i b x e f h)

    pub add_replay_claims-IsAccounted :
        (start end_exclusive : ℕ)
        → IsAccounted blocks (add_replay_claims blocks start end_exclusive s)
    unfolding add_replay_claims
    add_replay_claims-IsAccounted start end_exclusive = elim (Bool-cases (is_some s.failure)) [
      | inl a ↦ rw a h
      | inr a ↦
          rw a (add_replays-IsAccounted s (block_indices_for_span blocks start end_exclusive) a h)
    ]

    pub activate_reader-IsAccounted :
        (indices : List ℕ) {t : SourceBlockState}
        → activate_reader indices s ≡ ok t
        → IsAccounted blocks t
    unfolding activate_reader
    activate_reader-IsAccounted indices {t = t} =
        on_failure-elim (λ x. x ≡ ok t → IsAccounted blocks t) s.failure
          (λ error. err (store_failed error)) _ (λ error _ k. cc)
          (λ _ k.
            let (_, _, g) = >>=-eq-ok (check_claims s.slots indices) _ k in
            let e : record s { slots = take_claims s.slots indices } ≡ t = cc in
            subst (IsAccounted blocks) e (take_claims-IsAccounted s indices h))

-- A cancelled slot holds nothing and has ended.
cancel_slot_ended :
    (reason : Bytes) (slot : SourceBlockSlot) → is_ended (cancel_slot reason slot).status ≡ true
unfolding cancel_slot
cancel_slot_ended reason slot = elim (Bool-cases (is_released slot.status)) [
  | inl e ↦ rw (e, e) refl
  | inr e ↦ rw e refl
]

cancel_slot_idle :
    (reason : Bytes) (block : SourceBlockRange) (slot : SourceBlockSlot)
    → IsHeld block (cancel_slot reason slot)
      × (committed_of block (cancel_slot reason slot) ≡ 0)
      × (resident_of block (cancel_slot reason slot) ≡ 0)
cancel_slot_idle reason block slot =
    let (n, r, c) = ended_holds (cancel_slot reason slot).status (cancel_slot_ended reason slot) in
    let (u, v) = weights_idle block (cancel_slot reason slot) c n in
    (record { permit = rw n permit_none; claimed = rw r refl }, u, v)
  where
    permit_none : (cancel_slot reason slot).budget_permit ≡ none
    permit_none = unfold cancel_slot in refl

cancelled :
    (reason : Bytes) (blocks : List SourceBlockRange) (slots : List SourceBlockSlot)
    → EachHeld blocks slots
    → EachHeld blocks (map (cancel_slot reason) slots)
      × (total committed_of blocks (map (cancel_slot reason) slots) ≡ 0)
      × (total resident_of blocks (map (cancel_slot reason) slots) ≡ 0)
      × All (λ slot. is_ended slot.status ≡ true) (map (cancel_slot reason) slots)
cancelled reason [] [] h = (tt, refl, refl, tt)
cancelled reason [] (s ∷ slots) h = absurd h
cancelled reason (b ∷ blocks) [] h = absurd h
cancelled reason (b ∷ blocks) (s ∷ slots) h =
    let (k, u, v) = cancel_slot_idle reason b s in
    let (l, x, y, z) = cancelled reason blocks slots h.1 in
    ((k, l), omega (arith, u, x), omega (arith, v, y), (cancel_slot_ended reason s, z))

pub cancel-IsAccounted :
    (blocks : List SourceBlockRange) (s : SourceBlockState) (reason : Bytes)
    → IsAccounted blocks s
    → IsAccounted blocks (cancel reason s)
unfolding cancel
cancel-IsAccounted blocks s reason h =
    let (l, x, y, z) = cancelled reason blocks s.slots h.held in
    record { held = l; window = sym x; resident = sym y; ended = λ _. z }
