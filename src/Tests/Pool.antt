-- ===== src/Tests/Pool.antt =====
-- The allocator of src/wllm/engine/kv_cache.py with two blocks.
use w_llm.Base.{
  ℕ, zero, suc, ◌+◌, ◌≡◌, refl, [], ◌∷◌, ◌==◌, if◌then◌else◌, arith, get_or, count, ltb, ◌&&◌,
}
use w_llm.Base.Outcome.{ok}
use w_llm.Kv.Allocator.{Allocator, free, num_free}
use w_llm.Kv.Allocator.Owned.{Owned, free-Owned, drop_one}

abbrev nobody : ℕ → ℕ
nobody b = 0

-- Block 1 with two references, block 0 free.
abbrev shared : Allocator
shared = record { num_blocks = 2; free_blocks = 0 ∷ []; ref_counts = 0 ∷ 2 ∷ [] }

abbrev holds : ℕ → ℕ
holds zero = 0
holds (suc zero) = 2
holds (suc (suc b)) = 0

shared-Owned : Owned shared holds
shared-Owned = record { size = refl; refs = refs; free = frees }
  where
    refs : (b : ℕ) → get_or shared.ref_counts b 0 ≡ holds b
    refs zero = refl
    refs (suc zero) = refl
    refs (suc (suc b)) = refl

    frees :
        (b : ℕ)
        → count b shared.free_blocks ≡ (if ltb b shared.num_blocks && holds b == 0 then 1 else 0)
    frees zero = refl
    frees (suc zero) = refl
    frees (suc (suc b)) = ground arith

free-Owned_example :
    ((free 1 shared).0 ≡ ok (holds 1 == 1))
    × Owned (free 1 shared).1 (drop_one holds 1)
    × (num_free (free 1 shared).1 ≡ (if holds 1 == 1 then num_free shared + 1 else num_free shared))
    × ((free 1 shared).1.num_blocks ≡ shared.num_blocks)
free-Owned_example = free-Owned holds shared-Owned 1 (omega arith)
