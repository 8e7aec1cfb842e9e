-- ===== src/Kv/Safe/Sharing.antt =====
-- What a safe cache of src/wllm/engine/kv_cache.py means for its block tables, its free list and its index.
use w_llm.Base.{ℕ, ◌≤◌, ◌<◌, ◌≡◌, some, arith, count, get_or, nat_eq}
use w_llm.Base.Int.{ℤ, int_eq}
use w_llm.Base.Dict.{get}
use w_llm.Kv.Manager.{Manager}
use w_llm.Kv.Ownership.{holders}
use w_llm.Kv.Safe.{Safe}

module _ {T B : Type 0} where
  pub record Sharing (m : Manager T B) : Type 0 where
    -- a block has at least as many references as it stands in block tables
    pub referenced : (b : ℕ) → holders m.sequences b ≤ get_or m.allocator.ref_counts b 0
    -- a block that stands in a block table is not free
    pub in_use : (b : ℕ) → 0 < holders m.sequences b → count b m.allocator.free_blocks ≡ 0
    -- no block is free twice
    pub free_once : (b : ℕ) → count b m.allocator.free_blocks ≤ 1
    -- a free block has no references
    pub free_unheld :
        (b : ℕ) → 0 < count b m.allocator.free_blocks → get_or m.allocator.ref_counts b 0 ≡ 0
    -- the prefix index names no free block
    pub indexed :
        (h : ℤ) (b : ℕ) → get m.hash_to_block h ≡ some b → count b m.allocator.free_blocks ≡ 0

  pub Safe-Sharing : (m : Manager T B) → Safe m → Sharing m
  Safe-Sharing m s = record {
    referenced = λ b. omega (arith, s.covered b, s.books.owned.refs b);
    in_use = λ b h. ground (arith, s.covered b, s.books.owned.free b);
    free_once = λ b. ground (arith, s.books.owned.free b);
    free_unheld = λ b h. ground (arith, s.books.owned.refs b, s.books.owned.free b);
    indexed = λ h b e.
        let (chunk, info) = s.books.indexed h b e in
        ground (arith, s.books.live b (h, chunk) info, s.books.owned.free b);
  }
