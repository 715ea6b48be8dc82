-- ===== src/BlockStore/Accounts.antt =====
-- What the counters of the block store say of its slots (rust/src/s3/archive/block_store.rs).
use mathlib.Core.Path.{subst}
use shin_bucket_deployment.Prelude.{
  ℕ, zero, suc, ◌+◌, ◌≤◌, List, [], ◌∷◌, Bool, true, false, ◌&&◌, ◌||◌, none, some, ◌≡◌, arith,
  ◌==◌, if◌then◌else◌, get_elem?, All,
}
use shin_bucket_deployment.Blocks.{SourceBlockRange, block_len}
use shin_bucket_deployment.BlockStore.{
  SourceBlockStatus, SourceBlockSlot, SourceBlockState, is_reserving, is_fetching, is_ready,
  is_released, is_failed, is_some, set,
}

-- The statuses that hold a permit of the budget, those that count for the window, and those in
-- which a block stays once the store failed.
abbrev pub holds : SourceBlockStatus → Bool
holds status = is_fetching status || is_ready status

abbrev pub commits : SourceBlockStatus → Bool
commits status = is_reserving status || holds status

abbrev pub is_ended : SourceBlockStatus → Bool
is_ended status = is_released status || is_failed status

unfoldable pub committed_of : SourceBlockRange → SourceBlockSlot → ℕ
committed_of block slot = if commits slot.status then block_len block else 0

unfoldable pub resident_of : SourceBlockRange → SourceBlockSlot → ℕ
resident_of block slot = if holds slot.status then block_len block else 0

abbrev pub total :
    (SourceBlockRange → SourceBlockSlot → ℕ) → List SourceBlockRange → List SourceBlockSlot → ℕ
total w [] slots = 0
total w (block ∷ blocks) [] = 0
total w (block ∷ blocks) (slot ∷ slots) = w block slot + total w blocks slots

abbrev pub source_bytes : List SourceBlockRange → ℕ
source_bytes [] = 0
source_bytes (block ∷ blocks) = block_len block + source_bytes blocks

-- A permit for the block's bytes is held exactly while the block is fetched or ready, and a ready
-- block is claimed.
pub record IsHeld (block : SourceBlockRange) (slot : SourceBlockSlot) : Type 0 where
  pub permit : slot.budget_permit ≡ (if holds slot.status then some (block_len block) else none)
  pub claimed :
      (is_ready slot.status && (slot.remaining_claims == 0 && slot.live_claims == 0)) ≡ false

abbrev pub EachHeld : List SourceBlockRange → List SourceBlockSlot → Type 0
EachHeld [] [] = Unit
EachHeld [] (slot ∷ slots) = ⊥
EachHeld (block ∷ blocks) [] = ⊥
EachHeld (block ∷ blocks) (slot ∷ slots) = IsHeld block slot × EachHeld blocks slots

pub record IsAccounted (blocks : List SourceBlockRange) (s : SourceBlockState) : Type 0 where
  pub held : EachHeld blocks s.slots
  pub window : s.window_committed_bytes ≡ total committed_of blocks s.slots
  pub resident : s.resident_bytes ≡ total resident_of blocks s.slots
  pub ended : is_some s.failure ≡ true → All (λ slot. is_ended slot.status ≡ true) s.slots

module _ (w : SourceBlockRange → SourceBlockSlot → ℕ) where
  pub total-set :
      (blocks : List SourceBlockRange) (slots : List SourceBlockSlot) (i : ℕ)
      {block : SourceBlockRange} {slot : SourceBlockSlot} (new : SourceBlockSlot)
      → get_elem? blocks i ≡ some block
      → get_elem? slots i ≡ some slot
      → total w blocks (set slots i new) + w block slot ≡ total w blocks slots + w block new
  total-set [] slots i new e f = cc
  total-set (b ∷ blocks) [] i new e f = cc
  total-set (b ∷ blocks) (s ∷ slots) zero {block = block} {slot = slot} new e f =
      let p : w b s ≡ w block slot = cc in let q : w b new ≡ w block new = cc in omega (arith, p, q)
  total-set (b ∷ blocks) (s ∷ slots) (suc i) {block = block} {slot = slot} new e f =
      omega (arith, total-set blocks slots i {block = block} {slot = slot} new e f)

  pub le-total :
      (blocks : List SourceBlockRange) (slots : List SourceBlockSlot) (i : ℕ)
      {block : SourceBlockRange} {slot : SourceBlockSlot}
      → get_elem? blocks i ≡ some block
      → get_elem? slots i ≡ some slot
      → w block slot ≤ total w blocks slots
  le-total [] slots i e f = cc
  le-total (b ∷ blocks) [] i e f = cc
  le-total (b ∷ blocks) (s ∷ slots) zero {block = block} {slot = slot} e f =
      let p : w b s ≡ w block slot = cc in omega (arith, p)
  le-total (b ∷ blocks) (s ∷ slots) (suc i) {block = block} {slot = slot} e f =
      omega (arith, le-total blocks slots i {block = block} {slot = slot} e f)

  pub total-le :
      ((b : SourceBlockRange) (s : SourceBlockSlot) → w b s ≤ block_len b)
      → (blocks : List SourceBlockRange) (slots : List SourceBlockSlot)
      → total w blocks slots ≤ source_bytes blocks
  total-le small [] slots = omega arith
  total-le small (b ∷ blocks) [] = omega arith
  total-le small (b ∷ blocks) (s ∷ slots) = omega (arith, small b s, total-le small blocks slots)

pub committed_of-le : (b : SourceBlockRange) (s : SourceBlockSlot) → committed_of b s ≤ block_len b
unfolding committed_of
committed_of-le b s = ground arith

pub resident_of-le : (b : SourceBlockRange) (s : SourceBlockSlot) → resident_of b s ≤ block_len b
unfolding resident_of
resident_of-le b s = ground arith

EachHeld-set :
    (blocks : List SourceBlockRange) (slots : List SourceBlockSlot) (i : ℕ)
    {block : SourceBlockRange} (new : SourceBlockSlot)
    → get_elem? blocks i ≡ some block
    → IsHeld block new
    → EachHeld blocks slots
    → EachHeld blocks (set slots i new)
EachHeld-set [] [] i new e h k = k
EachHeld-set [] (s ∷ slots) i new e h k = absurd k
EachHeld-set (b ∷ blocks) [] i new e h k = absurd k
EachHeld-set (b ∷ blocks) (s ∷ slots) zero {block = block} new e h k =
    let p : block ≡ b = cc in (subst (λ x. IsHeld x new) p h, k.1)
EachHeld-set (b ∷ blocks) (s ∷ slots) (suc i) new e h k =
    (k.0, EachHeld-set blocks slots i new e h k.1)

pub EachHeld-get :
    (blocks : List SourceBlockRange) (slots : List SourceBlockSlot) (i : ℕ)
    {block : SourceBlockRange} {slot : SourceBlockSlot}
    → get_elem? blocks i ≡ some block
    → get_elem? slots i ≡ some slot
    → EachHeld blocks slots
    → IsHeld block slot
EachHeld-get [] slots i e f k = cc
EachHeld-get (b ∷ blocks) [] i e f k = cc
EachHeld-get (b ∷ blocks) (s ∷ slots) zero {block = block} {slot = slot} e f k =
    let p : b ≡ block = cc in
    let q : s ≡ slot = cc in subst (λ x. IsHeld block x) q (subst (λ x. IsHeld x s) p k.0)
EachHeld-get (b ∷ blocks) (s ∷ slots) (suc i) e f k = EachHeld-get blocks slots i e f k.1

module _ (P : SourceBlockSlot → Type 0) where
  All-set :
      (slots : List SourceBlockSlot) (i : ℕ) (new : SourceBlockSlot)
      → P new
      → All P slots
      → All P (set slots i new)
  All-set [] i new h k = tt
  All-set (s ∷ slots) zero new h k = (h, k.1)
  All-set (s ∷ slots) (suc i) new h k = (k.0, All-set slots i new h k.1)

  All-get :
      (slots : List SourceBlockSlot) (i : ℕ) {slot : SourceBlockSlot}
      → get_elem? slots i ≡ some slot
      → All P slots
      → P slot
  All-get [] i e k = cc
  All-get (s ∷ slots) zero {slot = slot} e k = let p : s ≡ slot = cc in subst P p k.0
  All-get (s ∷ slots) (suc i) e k = All-get slots i e k.1

-- One slot is replaced, and the counters follow.
pub set-IsAccounted :
    (blocks : List SourceBlockRange) (s : SourceBlockState) (i : ℕ) (block : SourceBlockRange)
    (slot new : SourceBlockSlot) (window resident : ℕ)
    → get_elem? blocks i ≡ some block
    → get_elem? s.slots i ≡ some slot
    → IsAccounted blocks s
    → IsHeld block new
    → window + committed_of block slot ≡ s.window_committed_bytes + committed_of block new
    → resident + resident_of block slot ≡ s.resident_bytes + resident_of block new
    → (is_some s.failure ≡ true → is_ended slot.status ≡ true → is_ended new.status ≡ true)
    → IsAccounted blocks (record s {
      slots = set s.slots i new;
      window_committed_bytes = window;
      resident_bytes = resident;
    })
set-IsAccounted blocks s i block slot new window resident e f h k p q r = record {
  held = EachHeld-set blocks s.slots i new e k h.held;
  window =
      let t = total-set committed_of blocks s.slots i {block = block} {slot = slot} new e f in
      omega (arith, t, p, h.window);
  resident =
      let t = total-set resident_of blocks s.slots i {block = block} {slot = slot} new e f in
      omega (arith, t, q, h.resident);
  ended = λ z.
      All-set (λ slot. is_ended slot.status ≡ true) s.slots i new
        (r z (All-get (λ slot. is_ended slot.status ≡ true) s.slots i f (h.ended z))) (h.ended z);
}
