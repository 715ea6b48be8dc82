-- ===== src/BlockStore/Sections.antt =====
-- The lock sections of fetching (rust/src/s3/archive/block_store.rs) keep the accounts.
use shin_bucket_deployment.Prelude.{
  ℕ, ◌+◌, ◌≤◌, List, Bool, true, false, not, ◌&&◌, ◌||◌, Option, none, some, Bytes, ◌≡◌, refl, inl,
  inr, Bool-cases, arith, ◌==◌, if◌then◌else◌, get_elem?, u64_max, Result, ok, err, ||_false,
}
use shin_bucket_deployment.Blocks.{SourceBlockRange, block_len}
use shin_bucket_deployment.BlockStore.{
  SourceBlockStatus, pending, reserving, fetching, ready, released, failed, SourceBlockSlot,
  SourceBlockState, SourceFetchMode, is_pending, is_reserving, is_fetching, is_ready, is_some,
  on_failure, when_some, ReserveOutcome, refused, not_needed, set, with_both, is_admitted,
  reserve_slot, reserve_begin, deny_slot, reserve_denied, grant_slot, reserve_granted,
  rollback_slot, rollback_fetch, give_back, finish_slot, finish_fetch,
}
use shin_bucket_deployment.BlockStore.Accounts.{
  holds, commits, is_ended, committed_of, resident_of, source_bytes, IsHeld, IsAccounted,
  EachHeld-get, total-set, le-total, total-le, committed_of-le, resident_of-le, set-IsAccounted,
}

pub with_both-elim {ℓ κ} :
    {A : Type ℓ} (P : A → Type κ) (other : A) (f : SourceBlockRange → SourceBlockSlot → A)
    (block : Option SourceBlockRange) (slot : Option SourceBlockSlot)
    → P other
    → ((b : SourceBlockRange) (s : SourceBlockSlot) → block ≡ some b → slot ≡ some s → P (f b s))
    → P (with_both other f block slot)
with_both-elim P other f none slot h k = h
with_both-elim P other f (some b) none h k = h
with_both-elim P other f (some b) (some s) h k = k b s refl refl

pub on_failure-elim {ℓ κ} :
    {A : Type ℓ} (P : A → Type κ) (failure : Option Bytes) (f : Bytes → A) (other : A)
    → ((error : Bytes) → failure ≡ some error → P (f error))
    → (failure ≡ none → P other)
    → P (on_failure failure f other)
on_failure-elim P none f other h k = k refl
on_failure-elim P (some error) f other h k = h error refl

pub when_some-elim {ℓ κ μ} :
    {A : Type ℓ} {B : Type κ} (P : B → Type μ) (o : Option A) (other next : B)
    → P other
    → P next
    → P (when_some o other next)
when_some-elim P none other next h k = h
when_some-elim P (some a) other next h k = k

pub is_pending-eq : (status : SourceBlockStatus) → is_pending status ≡ true → status ≡ pending
is_pending-eq pending h = refl
is_pending-eq reserving h = cc
is_pending-eq fetching h = cc
is_pending-eq (ready bytes) h = cc
is_pending-eq released h = cc
is_pending-eq (failed error) h = cc

pub is_reserving-eq : (status : SourceBlockStatus) → is_reserving status ≡ true → status ≡ reserving
is_reserving-eq pending h = cc
is_reserving-eq reserving h = refl
is_reserving-eq fetching h = cc
is_reserving-eq (ready bytes) h = cc
is_reserving-eq released h = cc
is_reserving-eq (failed error) h = cc

pub is_fetching-eq : (status : SourceBlockStatus) → is_fetching status ≡ true → status ≡ fetching
is_fetching-eq pending h = cc
is_fetching-eq reserving h = cc
is_fetching-eq fetching h = refl
is_fetching-eq (ready bytes) h = cc
is_fetching-eq released h = cc
is_fetching-eq (failed error) h = cc

not-false : {b : Bool} → not b ≡ false → b ≡ true
not-false {b = true} h = refl
not-false {b = false} h = cc

-- What a slot of a given status counts for.
weights :
    (block : SourceBlockRange) (slot : SourceBlockSlot) {status : SourceBlockStatus}
    → slot.status ≡ status
    → (committed_of block slot ≡ (if commits status then block_len block else 0))
      × (resident_of block slot ≡ (if holds status then block_len block else 0))
unfolding committed_of resident_of
weights block slot e = (rw e refl, rw e refl)

holds-commits : (status : SourceBlockStatus) → holds status ≡ true → commits status ≡ true
holds-commits status h = ground (arith, h)

weights_holding :
    (block : SourceBlockRange) (slot : SourceBlockSlot)
    → holds slot.status ≡ true
    → (committed_of block slot ≡ block_len block) × (resident_of block slot ≡ block_len block)
unfolding committed_of resident_of
weights_holding block slot h = (rw (holds-commits slot.status h) refl, rw h refl)

pub weights_idle :
    (block : SourceBlockRange) (slot : SourceBlockSlot)
    → commits slot.status ≡ false
    → holds slot.status ≡ false
    → (committed_of block slot ≡ 0) × (resident_of block slot ≡ 0)
unfolding committed_of resident_of
weights_idle block slot h k = (rw h refl, rw k refl)

pub ended_holds :
    (status : SourceBlockStatus)
    → is_ended status ≡ true
    → (holds status ≡ false) × (is_ready status ≡ false) × (commits status ≡ false)
ended_holds pending h = cc
ended_holds reserving h = cc
ended_holds fetching h = cc
ended_holds (ready bytes) h = cc
ended_holds released h = (refl, refl, refl)
ended_holds (failed error) h = (refl, refl, refl)

-- What the sections read of one index of a store in good order.
module _ (blocks : List SourceBlockRange) (s : SourceBlockState) (i : ℕ) (block : SourceBlockRange)
    (slot : SourceBlockSlot) (at_block : get_elem? blocks i ≡ some block)
    (at_slot : get_elem? s.slots i ≡ some slot) (h : IsAccounted blocks s) where
  held : IsHeld block slot
  held = EachHeld-get blocks s.slots i at_block at_slot h.held

  window_holds : committed_of block slot ≤ s.window_committed_bytes
  window_holds =
      let l =
        le-total committed_of blocks s.slots i {block = block} {slot = slot} at_block at_slot in
      omega (arith, l, h.window)

  resident_holds : resident_of block slot ≤ s.resident_bytes
  resident_holds =
      let l =
        le-total resident_of blocks s.slots i {block = block} {slot = slot} at_block at_slot in
      omega (arith, l, h.resident)

  -- There is room in 64 bits for what the slot may take.
  window_room :
      source_bytes blocks ≤ u64_max
      → (new : SourceBlockSlot)
      → s.window_committed_bytes + committed_of block new ≤ u64_max + committed_of block slot
  window_room m new =
      let t =
        total-set committed_of blocks s.slots i {block = block} {slot = slot} new at_block
          at_slot in
      let l = total-le committed_of committed_of-le blocks (set s.slots i new) in
      omega (arith, t, l, m, h.window)

  resident_room :
      source_bytes blocks ≤ u64_max
      → (new : SourceBlockSlot)
      → s.resident_bytes + resident_of block new ≤ u64_max + resident_of block slot
  resident_room m new =
      let t =
        total-set resident_of blocks s.slots i {block = block} {slot = slot} new at_block at_slot in
      let l = total-le resident_of resident_of-le blocks (set s.slots i new) in
      omega (arith, t, l, m, h.resident)

  reserve_slot-IsAccounted :
      source_bytes blocks ≤ u64_max
      → (window_bytes : ℕ) (mode : SourceFetchMode)
      → IsAccounted blocks (reserve_slot window_bytes mode i s block slot).1
  unfolding reserve_slot
  reserve_slot-IsAccounted m window_bytes mode =
      elim (Bool-cases (slot.remaining_claims == 0 || not (is_pending slot.status))) [
        | inl e ↦ rw e h
        | inr e ↦ elim (Bool-cases (is_admitted window_bytes mode block slot s)) [
          | inr f ↦ rw (e, f) h
          | inl f ↦
              let st = is_pending-eq slot.status (
                not-false
                  (||_false (slot.remaining_claims == 0) (not (is_pending slot.status)) e).1) in
              let new : SourceBlockSlot = record slot {
                replay_priority = false;
                status = reserving;
              } in
              let (c, r) = weights block slot st in
              let (c', r') = weights block new refl in
              let room = window_room m new in
              rw (e, f)
                (set-IsAccounted blocks s i block slot new _ s.resident_bytes at_block at_slot h
                  (record { permit = rw st at held.permit; claimed = refl })
                  (omega (arith, c, c', room)) (omega (arith, r, r'))
                  (λ _ k. let z : false ≡ true = rw st at k in cc))
        ]
      ]

  deny_slot-IsAccounted : (error : Bytes) → IsAccounted blocks (deny_slot error i s block slot)
  unfolding deny_slot
  deny_slot-IsAccounted error = elim (Bool-cases (is_reserving slot.status)) [
    | inr e ↦ rw e h
    | inl e ↦
        let st = is_reserving-eq slot.status e in
        let new : SourceBlockSlot = record slot { status = failed error } in
        let (c, r) = weights block slot st in
        let (c', r') = weights block new refl in
        let w = window_holds in
        rw e (
          set-IsAccounted blocks s i block slot new _ s.resident_bytes at_block at_slot h
            (record { permit = rw st at held.permit; claimed = refl }) (omega (arith, c, c', w))
            (omega (arith, r, r')) (λ _ k. refl))
  ]

  grant_slot-IsAccounted :
      source_bytes blocks ≤ u64_max
      → is_some s.failure ≡ false
      → IsAccounted blocks (grant_slot i s block slot)
  unfolding grant_slot
  grant_slot-IsAccounted m alive = elim (Bool-cases (is_reserving slot.status)) [
    | inr e ↦ elim (Bool-cases (slot.remaining_claims == 0)) [
      | inl f ↦ rw (e, f) h
      | inr f ↦ rw (e, f) h
    ]
    | inl e ↦
        let st = is_reserving-eq slot.status e in
        let (c, r) = weights block slot st in
        let permit = rw st at held.permit in
        elim (Bool-cases (slot.remaining_claims == 0)) [
          | inl f ↦
              let new : SourceBlockSlot = record slot { status = released } in
              let (c', r') = weights block new refl in
              let w = window_holds in
              rw (e, f)
                (set-IsAccounted blocks s i block slot new _ s.resident_bytes at_block at_slot h
                  (record { permit = permit; claimed = refl }) (omega (arith, c, c', w))
                  (omega (arith, r, r')) (λ _ k. refl))
          | inr f ↦
              let new : SourceBlockSlot = record slot {
                budget_permit = some (block_len block);
                status = fetching;
              } in
              let (c', r') = weights block new refl in
              let room = resident_room m new in
              rw (e, f)
                (set-IsAccounted blocks s i block slot new s.window_committed_bytes _ at_block
                  at_slot h (record { permit = refl; claimed = refl }) (omega (arith, c, c'))
                  (omega (arith, r, r', room)) (λ z _. let w : false ≡ true = rw alive at z in cc))
        ]
  ]

  rollback_slot-IsAccounted :
      (restore : Bool) → IsAccounted blocks (rollback_slot restore i s block slot)
  unfolding rollback_slot
  rollback_slot-IsAccounted restore = elim (Bool-cases (is_reserving slot.status)) [
    | inl e ↦
        let st = is_reserving-eq slot.status e in
        let (c, r) = weights block slot st in
        let new : SourceBlockSlot = record slot {
          replay_priority = slot.replay_priority || restore;
          status = pending;
        } in
        let (c', r') = weights block new refl in
        let w = window_holds in
        rw e (
          set-IsAccounted blocks s i block slot new _ s.resident_bytes at_block at_slot h
            (record { permit = rw st at held.permit; claimed = refl }) (omega (arith, c, c', w))
            (omega (arith, r, r')) (λ _ k. let z : false ≡ true = rw st at k in cc))
    | inr e ↦ elim (Bool-cases (is_fetching slot.status)) [
      | inl f ↦
          let st = is_fetching-eq slot.status f in
          let (c, r) = weights block slot st in
          let new : SourceBlockSlot = record slot {
            replay_priority = slot.replay_priority || restore;
            budget_permit = none;
            status = pending;
          } in
          let (c', r') = weights block new refl in
          let w = window_holds in
          let v = resident_holds in
          rw (e, f)
            (set-IsAccounted blocks s i block slot new _ _ at_block at_slot h
              (record { permit = refl; claimed = refl }) (omega (arith, c, c', w))
              (omega (arith, r, r', v)) (λ _ k. let z : false ≡ true = rw st at k in cc))
      | inr f ↦ rw (e, f) h
    ]
  ]

  -- A slot that holds a permit ends, whatever its claims.
  pub give_back-IsAccounted :
      (status : SourceBlockStatus) (next : SourceBlockSlot)
      → holds slot.status ≡ true
      → is_ended status ≡ true
      → IsAccounted blocks (give_back status i s block next)
  unfolding give_back
  give_back-IsAccounted status next k q =
      let new : SourceBlockSlot = record next { budget_permit = none; status = status } in
      let (none_held, not_ready, uncommitted) = ended_holds status q in
      let (c, r) = weights_holding block slot k in
      let (c', r') = weights_idle block new uncommitted none_held in
      let w = window_holds in
      let v = resident_holds in
      set-IsAccounted blocks s i block slot new _ _ at_block at_slot h
        (record { permit = rw none_held refl; claimed = rw not_ready refl })
        (omega (arith, c, c', w)) (omega (arith, r, r', v)) (λ _ _. q)

  finish_slot-IsAccounted :
      (result : Result Bytes Bytes)
      → slot.status ≡ fetching
      → IsAccounted blocks (finish_slot result i s block slot)
  unfolding finish_slot
  finish_slot-IsAccounted (err error) st =
      give_back-IsAccounted (failed error) slot (rw st refl) refl
  finish_slot-IsAccounted (ok bytes) st =
      elim (Bool-cases (slot.remaining_claims == 0 && slot.live_claims == 0)) [
        | inl e ↦ rw e (give_back-IsAccounted released slot (rw st refl) refl)
        | inr e ↦
            let new : SourceBlockSlot = record slot { status = ready bytes } in
            let (c, r) = weights block slot st in
            let (c', r') = weights block new refl in
            rw e (
              set-IsAccounted blocks s i block slot new s.window_committed_bytes s.resident_bytes
                at_block at_slot h (record { permit = rw st at held.permit; claimed = e })
                (omega (arith, c, c')) (omega (arith, r, r'))
                (λ _ k. let z : false ≡ true = rw st at k in cc))
      ]

-- The sections themselves.
module _ (blocks : List SourceBlockRange) (s : SourceBlockState) (h : IsAccounted blocks s) where
  pub reserve_begin-IsAccounted :
      source_bytes blocks ≤ u64_max
      → (window_bytes : ℕ) (mode : SourceFetchMode) (i : ℕ)
      → IsAccounted blocks (reserve_begin blocks window_bytes mode i s).1
  unfolding reserve_begin
  reserve_begin-IsAccounted m window_bytes mode i =
      when_some-elim {B = ReserveOutcome × SourceBlockState} (λ x. IsAccounted blocks x.1)
        (get_elem? blocks i) (not_needed, s) _ h
        (on_failure-elim {A = ReserveOutcome × SourceBlockState} (λ x. IsAccounted blocks x.1)
          s.failure (λ error. (refused error, s)) _ (λ error e. h)
          (λ e.
            with_both-elim {A = ReserveOutcome × SourceBlockState} (λ x. IsAccounted blocks x.1)
              (not_needed, s) (reserve_slot window_bytes mode i s) (get_elem? blocks i)
              (get_elem? s.slots i) h
              (λ b x e f. reserve_slot-IsAccounted blocks s i b x e f h m window_bytes mode)))

  pub reserve_denied-IsAccounted :
      (error : Bytes) (i : ℕ) → IsAccounted blocks (reserve_denied blocks error i s)
  unfolding reserve_denied
  reserve_denied-IsAccounted error i =
      with_both-elim (IsAccounted blocks) s (deny_slot error i s) (get_elem? blocks i)
        (get_elem? s.slots i) h (λ b x e f. deny_slot-IsAccounted blocks s i b x e f h error)

  pub reserve_granted-IsAccounted :
      source_bytes blocks ≤ u64_max → (i : ℕ) → IsAccounted blocks (reserve_granted blocks i s)
  unfolding reserve_granted
  reserve_granted-IsAccounted m i = elim (Bool-cases (is_some s.failure)) [
    | inl a ↦ rw a h
    | inr a ↦ rw a (
        with_both-elim (IsAccounted blocks) s (grant_slot i s) (get_elem? blocks i)
          (get_elem? s.slots i) h (λ b x e f. grant_slot-IsAccounted blocks s i b x e f h m a))
  ]

  pub rollback_fetch-IsAccounted :
      (restore : Bool) (i : ℕ) → IsAccounted blocks (rollback_fetch blocks restore i s)
  unfolding rollback_fetch
  rollback_fetch-IsAccounted restore i =
      with_both-elim (IsAccounted blocks) s (rollback_slot restore i s) (get_elem? blocks i)
        (get_elem? s.slots i) h (λ b x e f. rollback_slot-IsAccounted blocks s i b x e f h restore)

  pub finish_fetch-IsAccounted :
      (result : Result Bytes Bytes) (i : ℕ) → IsAccounted blocks (finish_fetch blocks result i s)
  unfolding finish_fetch
  finish_fetch-IsAccounted result i =
      with_both-elim (IsAccounted blocks) s _ (get_elem? blocks i) (get_elem? s.slots i) h
        (λ b x e f. elim (Bool-cases (is_some s.failure || not (is_fetching x.status))) [
          | inl g ↦ rw g h
          | inr g ↦ rw g (
              finish_slot-IsAccounted blocks s i b x e f h result (
                is_fetching-eq x.status
                  (not-false (||_false (is_some s.failure) (not (is_fetching x.status)) g).1)))
        ])
