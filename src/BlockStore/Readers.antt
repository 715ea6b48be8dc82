-- ===== src/BlockStore/Readers.antt =====
-- The lock sections of the readers and of the cancellation (rust/src/s3/archive/block_store.rs) keep
-- the accounts.
use shin_bucket_deployment.Prelude.{
  ℕ, ◌-◌, List, Bool, true, false, not, ◌&&◌, ◌||◌, some, ◌≡◌, refl, inl, inr, Bool-cases, arith,
  ◌==◌, get_elem?, saturating_add,
}
use shin_bucket_deployment.Blocks.{SourceBlockRange}
use shin_bucket_deployment.BlockStore.{
  SourceBlockStatus, pending, reserving, fetching, ready, released, failed, SourceBlockSlot,
  SourceBlockState, is_ready, is_upcoming, is_some, set,
}
use shin_bucket_deployment.BlockStore.Claims.{
  add_live, release_claim, release_reader, replayed_status, add_replay,
}
use shin_bucket_deployment.BlockStore.Accounts.{
  holds, commits, is_ended, committed_of, resident_of, IsAccounted, EachHeld-get, set-IsAccounted,
}
use shin_bucket_deployment.BlockStore.Sections.{give_back-IsAccounted}

all_three : (a b c : Bool) → (a && (b && c)) ≡ true → c ≡ true
all_three true true c h = h
all_three true false c h = cc
all_three false b c h = cc

reorder : (a b c : Bool) → (a && (b && c)) ≡ false → (c && (b && a)) ≡ false
reorder a b c h = ground (arith, h)

-- What a slot counts for depends on its status.
same_weights :
    (block : SourceBlockRange) (slot new : SourceBlockSlot)
    → commits slot.status ≡ commits new.status
    → holds slot.status ≡ holds new.status
    → (committed_of block slot ≡ committed_of block new)
      × (resident_of block slot ≡ resident_of block new)
unfolding committed_of resident_of
same_weights block slot new e f = (rw e refl, rw f refl)

-- A slot is replaced by one that counts for the same.
same-IsAccounted :
    (blocks : List SourceBlockRange) (s : SourceBlockState) (i : ℕ) (block : SourceBlockRange)
    (slot new : SourceBlockSlot)
    → get_elem? blocks i ≡ some block
    → get_elem? s.slots i ≡ some slot
    → IsAccounted blocks s
    → commits slot.status ≡ commits new.status
    → holds slot.status ≡ holds new.status
    → slot.budget_permit ≡ new.budget_permit
    → (is_ready new.status && (new.remaining_claims == 0 && new.live_claims == 0)) ≡ false
    → (is_some s.failure ≡ true → is_ended slot.status ≡ true → is_ended new.status ≡ true)
    → IsAccounted blocks (record s { slots = set s.slots i new })
same-IsAccounted blocks s i block slot new e f h c k p q r =
    let (u, v) = same_weights block slot new c k in
    let z = (EachHeld-get blocks s.slots i {block = block} {slot = slot} e f h.held).permit in
    set-IsAccounted blocks s i block slot new s.window_committed_bytes s.resident_bytes e f h
      (record { permit = rw (p, k) at z; claimed = q }) (omega (arith, u)) (omega (arith, v)) r

module _ (blocks : List SourceBlockRange) (s : SourceBlockState) (i : ℕ) (block : SourceBlockRange)
    (slot : SourceBlockSlot) (at_block : get_elem? blocks i ≡ some block)
    (at_slot : get_elem? s.slots i ≡ some slot) (h : IsAccounted blocks s) where
  -- The claims change, and perhaps the priority.
  recount-IsAccounted :
      (remaining live : ℕ) (priority : Bool)
      → (is_ready slot.status && (remaining == 0 && live == 0)) ≡ false
      → IsAccounted blocks (record s {
        slots = set s.slots i (record slot {
          remaining_claims = remaining;
          live_claims = live;
          replay_priority = priority;
        });
      })
  recount-IsAccounted remaining live priority q =
      same-IsAccounted blocks s i block slot _ at_block at_slot h refl refl refl q (λ _ k. k)

  ready_holds : is_ready slot.status ≡ true → holds slot.status ≡ true
  ready_holds e = ground (arith, e)

  pub release_claim-IsAccounted : IsAccounted blocks (release_claim i s block slot)
  unfolding release_claim
  release_claim-IsAccounted = elim (Bool-cases (slot.remaining_claims == 0)) [
    | inl a ↦ rw a h
    | inr a ↦
        let live = slot.live_claims == 0 in
        elim (Bool-cases (not (slot.remaining_claims - 1 == 0) || not live)) [
          | inl b ↦
              rw (a, b)
                (recount-IsAccounted (slot.remaining_claims - 1) slot.live_claims
                  slot.replay_priority (ground (arith, b)))
          | inr b ↦ elim (Bool-cases (is_ready slot.status)) [
            | inl c ↦
                rw (a, b, c)
                  (give_back-IsAccounted blocks s i block slot at_block at_slot h released
                    (record slot { remaining_claims = slot.remaining_claims - 1 }) (ready_holds c)
                    refl)
            | inr c ↦ elim (Bool-cases (is_upcoming slot.status)) [
              | inl d ↦
                  rw (a, b, c, d)
                    (recount-IsAccounted (slot.remaining_claims - 1) slot.live_claims true
                      (rw c refl))
              | inr d ↦
                  rw (a, b, c, d)
                    (recount-IsAccounted (slot.remaining_claims - 1) slot.live_claims
                      slot.replay_priority (rw c refl))
            ]
          ]
        ]
  ]

  pub release_reader-IsAccounted : IsAccounted blocks (release_reader i s block slot)
  unfolding release_reader
  release_reader-IsAccounted = elim (Bool-cases (slot.live_claims == 0)) [
    | inl a ↦ rw a h
    | inr a ↦
        elim (Bool-cases (
          (slot.live_claims - 1 == 0)
          && ((slot.remaining_claims - 1 == 0) && is_ready slot.status))) [
            | inl b ↦
                rw (a, b)
                  (give_back-IsAccounted blocks s i block slot at_block at_slot h released
                    (record slot {
                      live_claims = slot.live_claims - 1;
                      remaining_claims = slot.remaining_claims - 1;
                      replay_priority =
                          slot.replay_priority
                          || (slot.remaining_claims - 1 == 0 && is_upcoming slot.status);
                    })
                    (ready_holds (all_three (slot.live_claims - 1 == 0) _ _ b)) refl)
            | inr b ↦
                rw (a, b)
                  (recount-IsAccounted (slot.remaining_claims - 1) (slot.live_claims - 1) _
                    (reorder (slot.live_claims - 1 == 0) (slot.remaining_claims - 1 == 0) _ b))
          ]
  ]

  pub add_live-IsAccounted :
      IsAccounted blocks (record s { slots = add_live s.slots i (some slot) })
  add_live-IsAccounted =
      recount-IsAccounted slot.remaining_claims (saturating_add slot.live_claims 1)
        slot.replay_priority
        (live_claimed (is_ready slot.status) slot.remaining_claims slot.live_claims)
    where
      live_claimed : (r : Bool) (m n : ℕ) → (r && (m == 0 && saturating_add n 1 == 0)) ≡ false
      live_claimed r m n = ground arith

  pub add_replay-IsAccounted :
      is_some s.failure ≡ false
      → IsAccounted blocks (record s { slots = add_replay s.slots i (some slot) })
  add_replay-IsAccounted alive =
      same-IsAccounted blocks s i block slot _ at_block at_slot h (replayed_commits slot.status)
        (replayed_holds slot.status) refl
        (claimed (is_ready (replayed_status slot.status)) slot.remaining_claims slot.live_claims)
        (λ z _. let w : false ≡ true = rw alive at z in cc)
    where
      replayed_commits : (st : SourceBlockStatus) → commits st ≡ commits (replayed_status st)
      replayed_commits pending = refl
      replayed_commits reserving = refl
      replayed_commits fetching = refl
      replayed_commits (ready bytes) = refl
      replayed_commits released = refl
      replayed_commits (failed error) = refl

      claimed : (r : Bool) (m n : ℕ) → (r && (saturating_add m 1 == 0 && n == 0)) ≡ false
      claimed r m n = ground arith

      replayed_holds : (st : SourceBlockStatus) → holds st ≡ holds (replayed_status st)
      replayed_holds pending = refl
      replayed_holds reserving = refl
      replayed_holds fetching = refl
      replayed_holds (ready bytes) = refl
      replayed_holds released = refl
      replayed_holds (failed error) = refl
