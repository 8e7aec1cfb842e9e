-- ===== src/Kv/Ownership.antt =====
-- No operation of KVCacheManager in src/wllm/engine/kv_cache.py loses a block or hands one out twice.
pub mod Grown
pub mod Tensors
pub mod Reserve
pub mod Swap
pub mod Spare
pub mod Prefix
use w_llm.Base.{
  ℕ, zero, suc, ◌+◌, ◌-◌, ◌*◌, ◌/◌, ◌≤◌, ◌<◌, ◌≡◌, ◌≢◌, refl, ◌∙◌, sym, ap, subst, ◌⊎◌, inl, inr,
  Bool, true, false, Option, none, some, List, [], ◌∷◌, ◌++◌, length, count, count-append, ◌==◌,
  if◌then◌else◌, arith, Bool-cases, Option-cases, nat_eq, beq_self,
}
use w_llm.Base.Int.{ℤ, int_eq, int_beq_iff}
use w_llm.Base.Dict.{
  Dict, get, put, remove, Distinct, total, get-put, get-remove, put-Distinct, remove-Distinct,
  total-put_new, total-put_old, total-remove,
}
use w_llm.Base.Outcome.{Act, Result, Result-cases, ok, err, key_error, out_of_memory, ◌>>=◌, ◌>>◌}
use w_llm.Kv.Allocator.{Allocator, allocate, add_ref, num_free}
use w_llm.Kv.Allocator.Owned.{Owned, init-Owned, allocate-Owned, bump}
use w_llm.Kv.Storage.{Storage}
use w_llm.Kv.Manager.{
  Manager, SequenceState, empty_state, init, create_sequence, create_sequence_from_prefix, add_refs,
  free_sequence, free_blocks, pop_state, state_of,
}
use w_llm.Kv.Slots.{grow, reserve, reserve_from, rollback, advance}
use w_llm.Kv.Swap.{swap_out, swap_in, allocate_all, restore}
use w_llm.Kv.Books.{Books, Books-cong, Framed, Framed-refl, Framed-trans}
use w_llm.Kv.Books.Loops.{free_blocks-Books, add_refs-Books, allocate_all-Books}

-- In how many block tables a block stands, with repetitions.
abbrev pub holders : Dict ℤ SequenceState → ℕ → ℕ
holders d b = total (λ s. count b s.block_table) d

module _ {T B : Type 0} where
  -- Each block's count is the number of block tables it stands in, the free list holds the blocks
  -- that stand in none, and the prefix index names held blocks only.
  pub record Inv (m : Manager T B) : Type 0 where
    pub books : Books m (holders m.sequences)
    pub distinct : Distinct m.sequences

  -- The books do not read the block tables.
  pub with_tables :
      {m : Manager T B} (d : Dict ℤ SequenceState) {held : ℕ → ℕ}
      → Books m held
      → Books (record m { sequences = d }) held
  with_tables d k = record { owned = k.owned; indexed = k.indexed; live = k.live }

  pub seal :
      {m : Manager T B} (d : Dict ℤ SequenceState)
      → m.sequences ≡ d
      → Distinct d
      → Books m (holders d)
      → Inv m
  seal d e u k = record {
    books = Books-cong (holders d) _ (λ b. ap (λ x. holders x b) (sym e)) k;
    distinct = subst Distinct (sym e) u;
  }

  -- A block table stored under a new id.
  pub put_new-Inv :
      {m : Manager T B} (d : Dict ℤ SequenceState) (id : ℤ) (s : SequenceState)
      → m.sequences ≡ d
      → Distinct d
      → get d id ≡ none
      → Books m (λ b. holders d b + count b s.block_table)
      → Inv (record m { sequences = put m.sequences id s })
  put_new-Inv d id s e u new k =
      seal (put d id s) (ap (λ x. put x id s) e) (put-Distinct d id s u) (
        with_tables _ (
          Books-cong _ (holders (put d id s))
            (λ b. sym (total-put_new (λ x. count b x.block_table) d id s new)) k))

  pub create_sequence-Inv :
      (m : Manager T B) (id : ℤ) → get m.sequences id ≡ none → Inv m → Inv (create_sequence id m).1
  unfolding create_sequence
  create_sequence-Inv m id new v =
      put_new-Inv m.sequences id empty_state refl v.distinct new
        (Books-cong (holders m.sequences) _ (λ b. omega arith) v.books)

  -- The state of a sequence that starts from matched blocks.
  abbrev pub started_at : Manager T B → List ℕ → SequenceState
  started_at m bs = record { block_table = bs; context_len = length bs * m.block_size }

  -- A sequence that starts from matched blocks takes one more reference to each.
  pub create_sequence_from_prefix-Inv :
      (m : Manager T B) (id : ℤ) (bs : List ℕ)
      → get m.sequences id ≡ none
      → ((b : ℕ) → 0 < count b bs → 0 < holders m.sequences b)
      → Inv m
      → ((create_sequence_from_prefix id bs m).0 ≡ ok tt)
        × Inv (create_sequence_from_prefix id bs m).1
        × ((create_sequence_from_prefix id bs m).1.sequences ≡ put m.sequences id (started_at m bs))
        × ((create_sequence_from_prefix id bs m).1.block_size ≡ m.block_size)
  unfolding create_sequence_from_prefix
  create_sequence_from_prefix-Inv m id bs new held v =
      let (done, books, frame) = add_refs-Books m (holders m.sequences) bs v.books held in
      rw done (
        refl,
        put_new-Inv m.sequences id (started_at m bs) frame.sequences v.distinct new books,
        ap (λ d. put d id (started_at m bs)) frame.sequences,
        frame.block_size,
      )

  -- A block table taken out and given up.
  pub give_up-Inv :
      (m : Manager T B) (id : ℤ) (s : SequenceState)
      → get m.sequences id ≡ some s
      → Inv m
      → Books
          (record m { sequences = remove m.sequences id })
          (λ b. holders (remove m.sequences id) b + count b s.block_table)
  give_up-Inv m id s e v = with_tables _ (
      Books-cong (holders m.sequences) _
        (λ b. sym (total-remove (λ x. count b x.block_table) m.sequences id s v.distinct e))
        v.books)

  -- Freeing a sequence gives up exactly its own references.
  pub free_sequence-Inv :
      (m : Manager T B) (id : ℤ) (s : SequenceState)
      → get m.sequences id ≡ some s
      → Inv m
      → ((free_sequence id m).0 ≡ ok tt)
        × Inv (free_sequence id m).1
        × ((free_sequence id m).1.sequences ≡ remove m.sequences id)
  unfolding free_sequence
  free_sequence-Inv m id s e v =
      let rest = remove m.sequences id in
      let (done, books, frame) =
        free_blocks-Books _ (holders rest) s.block_table (give_up-Inv m id s e v) in
      rw (e, pop_state)
        (
          done,
          seal rest frame.sequences (remove-Distinct m.sequences id v.distinct) books,
          frame.sequences,
        )

  -- It leaves the host copies as they are.
  pub free_sequence_copies :
      (m : Manager T B) (id : ℤ) (s : SequenceState)
      → get m.sequences id ≡ some s
      → Inv m
      → ((free_sequence id m).1.swapped_kv ≡ m.swapped_kv)
        × ((free_sequence id m).1.swapped_context_len ≡ m.swapped_context_len)
  unfolding free_sequence
  free_sequence_copies m id s e v =
      let rest = remove m.sequences id in
      let (done, books, frame) =
        free_blocks-Books _ (holders rest) s.block_table (give_up-Inv m id s e v) in
      rw (e, pop_state) (frame.swapped_kv, frame.swapped_context_len)

  -- A change of the context length moves no block.
  pub context-Inv :
      (m : Manager T B) (id : ℤ) (s s' : SequenceState)
      → get m.sequences id ≡ some s
      → s'.block_table ≡ s.block_table
      → Inv m
      → Inv (record m { sequences = put m.sequences id s' })
  context-Inv m id s s' e same v =
      seal (put m.sequences id s') refl (put-Distinct m.sequences id s' v.distinct)
        (with_tables _ (Books-cong (holders m.sequences) _ kept v.books))
    where
      kept : (b : ℕ) → holders m.sequences b ≡ holders (put m.sequences id s') b
      kept b = omega (
        arith,
        total-put_old (λ x. count b x.block_table) m.sequences id s' s e,
        ap (count b) same,
      )

  pub rollback-Inv :
      (m : Manager T B) (id : ℤ) (s : SequenceState) (n : ℕ)
      → get m.sequences id ≡ some s
      → Inv m
      → Inv (rollback id n m).1
  unfolding rollback
  rollback-Inv m id s n e v =
      rw (e, state_of) (context-Inv m id s (record s { context_len = s.context_len - n }) e refl v)

  pub advance-Inv :
      (m : Manager T B) (id : ℤ) (s : SequenceState) (n : ℕ)
      → get m.sequences id ≡ some s
      → Inv m
      → Inv (advance id n m).1
  unfolding advance
  advance-Inv m id s n e v =
      rw (e, state_of) (context-Inv m id s (record s { context_len = s.context_len + n }) e refl v)

absent : {A : Type 0} (x : A) → ¬ (none ≡ some x)
absent x e = cc

-- Every block of a new cache is free.
pub init-Inv :
    {T B V : Type 0} (st : Storage T B V) (layers n k : ℕ) (caching : Bool)
    → Inv (init st layers n k caching)
unfolding init get total
init-Inv st layers n k caching = record {
  books = record {
    owned = init-Owned n;
    indexed = λ h b e. absurd (absent b e);
    live = λ b i e. absurd (absent i e);
  };
  distinct = tt;
}
