-- ===== src/Kv/Books.antt =====
-- The books of src/wllm/engine/kv_cache.py: the allocator's counts with the prefix index. `held` counts
-- the holders of each block, those among a call's local variables included.
pub mod Loops
use w_llm.Base.{
  ℕ, zero, suc, ◌+◌, ◌-◌, ◌≤◌, ◌<◌, ◌≡◌, ◌≢◌, refl, ◌∙◌, sym, ap, ◌⊎◌, inl, inr, Bool, true, false,
  Option, none, some, List, [], ◌∷◌, length, count, ◌==◌, ==_iff, if◌then◌else◌, arith, Bool-cases,
  Option-cases, nat_eq,
}
use w_llm.Base.Int.{ℤ, int_eq, int_beq_iff}
use w_llm.Base.Dict.{Dict, get, put, remove, get-remove}
use w_llm.Base.Outcome.{Result, ok, err, out_of_memory, Returned, ◌>>=◌, ◌>>◌}
use w_llm.Kv.Allocator.{Allocator, allocate, add_ref, free, num_free}
use w_llm.Kv.Allocator.Owned.{
  Owned, Owned-cong, bump, drop_one, allocate-Owned, add_ref-Owned, free-Owned,
}
use w_llm.Kv.Manager.{Manager, SequenceState, add_refs, unindex, forget, free_block, free_blocks}
use w_llm.Kv.Swap.{allocate_all}

-- What is left of the index.
unindex_keeps :
    (b : ℕ) (h : ℤ) (d : Dict ℤ ℕ) (j : ℤ) (c : ℕ)
    → get (unindex b h d) j ≡ some c
    → (get d j ≡ some c) × (c ≡ b → j ≢ h)
unfolding unindex
unindex_keeps b h d j c g = ground (arith, get-remove d h j, int_beq_iff h j)

module _ {T B : Type 0} where
  pub record Books (m : Manager T B) (held : ℕ → ℕ) : Type 0 where
    pub owned : Owned m.allocator held
    -- an index entry names a block that carries this hash
    pub indexed :
        (h : ℤ) (b : ℕ)
        → get m.hash_to_block h ≡ some b
        → (chunk : List ℕ) × (get m.block_hash_info b ≡ some (h, chunk))
    -- only held blocks carry a hash
    pub live : (b : ℕ) (i : ℤ × List ℕ) → get m.block_hash_info b ≡ some i → 0 < held b

  -- What the calls on the allocator and the index leave alone.
  pub record Framed (m m' : Manager T B) : Type 0 where
    pub sequences : m'.sequences ≡ m.sequences
    pub block_size : m'.block_size ≡ m.block_size
    pub num_blocks : m'.allocator.num_blocks ≡ m.allocator.num_blocks
    pub k_caches : m'.k_caches ≡ m.k_caches
    pub v_caches : m'.v_caches ≡ m.v_caches
    pub swapped_kv : m'.swapped_kv ≡ m.swapped_kv
    pub swapped_context_len : m'.swapped_context_len ≡ m.swapped_context_len

  pub Framed-refl : (m : Manager T B) → Framed m m
  Framed-refl m = ground arith

  pub Framed-trans : {l m n : Manager T B} → Framed l m → Framed m n → Framed l n
  Framed-trans f g = ground arith

  pub Books-cong :
      {m : Manager T B} (held held' : ℕ → ℕ)
      → ((b : ℕ) → held b ≡ held' b)
      → Books m held
      → Books m held'
  Books-cong held held' e k = record {
    owned = Owned-cong held held' e k.owned;
    indexed = k.indexed;
    live = λ b i g. omega (arith, e b, k.live b i g);
  }

  -- Forgetting a block that nobody holds any longer.
  forget-Books :
      (m : Manager T B) (a : Allocator) (held : ℕ → ℕ) (b : ℕ)
      → Books m held
      → held b ≡ 1
      → Owned a (drop_one held b)
      → Books (forget b (record m { allocator = a })) (drop_one held b)
  unfolding forget
  forget-Books m a held b k h o = elim (Option-cases (get m.block_hash_info b)) [
    | inl e ↦
        rw (e, forget)
          (record { owned = o; indexed = k.indexed; live = λ j i g. ground (arith, k.live j i g) })
    | inr ((hb, chunk), e) ↦
        rw (e, forget)
          (record {
            owned = o;
            indexed = λ j c g. kept hb chunk e j c (unindex_keeps b hb m.hash_to_block j c g);
            live = λ j i g. ground (arith, k.live j i, get-remove m.block_hash_info b j);
          })
  ]
    where
      kept :
          (hb : ℤ) (chunk : List ℕ)
          → get m.block_hash_info b ≡ some (hb, chunk)
          → (j : ℤ) (c : ℕ) → (get m.hash_to_block j ≡ some c) × (c ≡ b → j ≢ hb)
          → (chunk' : List ℕ) × (get (remove m.block_hash_info b) c ≡ some (j, chunk'))
      kept hb chunk e j c (g, other) =
          let (chunk', carries) = k.indexed j c g in
          (chunk', ground (arith, carries, get-remove m.block_hash_info b c, other))

  forget-Framed : (m : Manager T B) (b : ℕ) → Framed m (forget b m)
  unfolding forget
  forget-Framed m b = ground arith

  pub allocator-Framed :
      (m : Manager T B) (a : Allocator)
      → a.num_blocks ≡ m.allocator.num_blocks
      → Framed m (record m { allocator = a })
  allocator-Framed m a e = ground arith

  -- A reference given up: the block stays if others hold it, else it is free and forgotten.
  pub free_block-Books :
      (m : Manager T B) (held : ℕ → ℕ) (b : ℕ)
      → Books m held
      → 0 < held b
      → ((free_block b m).0 ≡ ok tt)
        × Books (free_block b m).1 (drop_one held b)
        × Framed m (free_block b m).1
  unfolding free_block
  free_block-Books m held b k h =
      let (gave, books, _, same) = free-Owned held k.owned b h in
      elim (Bool-cases (held b == 1)) [
        | inl last ↦
            rw (gave, last)
              (
                refl,
                forget-Books m _ held b k (ground arith) books,
                Framed-trans (allocator-Framed m _ same) (forget-Framed _ b),
              )
        | inr more ↦
            rw (gave, more)
              (
                refl,
                record {
                  owned = books;
                  indexed = k.indexed;
                  live = λ j i g. ground (arith, k.live j i g);
                },
                allocator-Framed m _ same,
              )
      ]
