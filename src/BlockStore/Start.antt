-- ===== src/BlockStore/Start.antt =====
-- A new block store (rust/src/s3/archive/block_store.rs) has its accounts in order.
use shin_bucket_deployment.Prelude.{
  ℕ, zero, suc, List, [], ◌∷◌, map, false, none, ◌≡◌, refl, sym, ◌∙◌, arith, length,
}
use shin_bucket_deployment.Planner.{ZipEntryPlan}
use shin_bucket_deployment.Blocks.{SourceBlockRange, block_indices_for_span}
use shin_bucket_deployment.BlockStore.{SourceBlockSlot, pending}
use shin_bucket_deployment.BlockStore.Claims.{
  count_claim, count_claims, count_plans, initial_claim_counts, new_state,
}
use shin_bucket_deployment.BlockStore.Accounts.{
  committed_of, resident_of, total, EachHeld, IsAccounted,
}

length-count_claim : (counts : List ℕ) (i : ℕ) → length (count_claim counts i) ≡ length counts
unfolding count_claim
length-count_claim [] i = refl
length-count_claim (c ∷ counts) zero = refl
length-count_claim (c ∷ counts) (suc i) = omega (arith, length-count_claim counts i)

length-count_claims :
    (counts indices : List ℕ) → length (count_claims counts indices) ≡ length counts
unfolding count_claims
length-count_claims counts [] = refl
length-count_claims counts (i ∷ indices) =
    length-count_claims (count_claim counts i) indices ∙ length-count_claim counts i

length-count_plans :
    (blocks : List SourceBlockRange) (plans : List ZipEntryPlan) (counts : List ℕ)
    → length (count_plans blocks plans counts) ≡ length counts
unfolding count_plans
length-count_plans blocks [] counts = refl
length-count_plans blocks (plan ∷ plans) counts =
    length-count_plans blocks plans _
    ∙ length-count_claims counts
        (block_indices_for_span blocks plan.source_offset plan.source_span_end_exclusive)

length-zeros :
    (blocks : List SourceBlockRange) → length {A = ℕ} (map (λ _. 0) blocks) ≡ length blocks
length-zeros [] = refl
length-zeros (b ∷ blocks) = omega (arith, length-zeros blocks)

abbrev new_slot : ℕ → SourceBlockSlot
new_slot claims = record {
  remaining_claims = claims;
  live_claims = 0;
  replay_priority = false;
  budget_permit = none;
  status = pending;
}

new_slots_idle :
    (blocks : List SourceBlockRange) (counts : List ℕ)
    → length counts ≡ length blocks
    → EachHeld blocks (map new_slot counts)
      × (total committed_of blocks (map new_slot counts) ≡ 0)
      × (total resident_of blocks (map new_slot counts) ≡ 0)
unfolding committed_of resident_of
new_slots_idle [] [] h = (tt, refl, refl)
new_slots_idle [] (c ∷ counts) h = absurd (omega arith)
new_slots_idle (b ∷ blocks) [] h = absurd (omega arith)
new_slots_idle (b ∷ blocks) (c ∷ counts) h =
    let (k, u, v) = new_slots_idle blocks counts (omega arith) in
    ((record { permit = refl; claimed = refl }, k), omega (arith, u), omega (arith, v))

pub new_state-IsAccounted :
    (blocks : List SourceBlockRange) (plans : List ZipEntryPlan)
    → IsAccounted blocks (new_state blocks plans)
unfolding new_state initial_claim_counts
new_state-IsAccounted blocks plans =
    let (k, u, v) =
      new_slots_idle blocks (initial_claim_counts blocks plans)
        (length-count_plans blocks plans (map (λ _. 0) blocks) ∙ length-zeros blocks) in
    record { held = k; window = sym u; resident = sym v; ended = λ z. cc }
