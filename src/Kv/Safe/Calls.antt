-- ===== src/Kv/Safe/Calls.antt =====
-- Each call of KVCacheManager in src/wllm/engine/kv_cache.py, one by one.
use w_llm.Base.{
  ℕ, zero, suc, ◌+◌, ◌-◌, ◌/◌, ◌≤◌, ◌≡◌, inl, inr, some, [], ◌∷◌, ◌++◌, length, count, count-append,
  arith, Option-cases, Bool-cases, nat_eq, get_elem?, ◌==◌,
}
use w_llm.Base.Int.{ℤ, int_eq}
use w_llm.Base.Keeps.{Keeps-bind, Keeps-pure, keeps_rules}
use w_llm.Base.Dict.{get, remove, remove-Distinct, total-remove}
use w_llm.Base.Outcome.{after}
use w_llm.Kv.Allocator.{allocate}
use w_llm.Kv.Allocator.Owned.{allocate-Owned, bump}
use w_llm.Kv.Manager.{
  Manager, SequenceState, empty_state, create_sequence, free_sequence, free_blocks, pop_state,
  put_state, state_of,
}
use w_llm.Kv.Slots.{context_len, rollback, advance, extend, grow, block_at, reserve_from, reserve}
use w_llm.Kv.Books.{Books-cong}
use w_llm.Kv.Books.Loops.{free_blocks-Books}
use w_llm.Kv.Ownership.{holders, with_tables}
use w_llm.Kv.Safe.{Safe, IsSafe, put_state-Safe, replace_state-Safe, Framed-Safe, state_of-Keeps}

module _ {T B : Type 0} where
  pub create_sequence-Safe : (id : ℤ) → IsSafe {T = T} {B = B} (create_sequence id)
  unfolding create_sequence
  create_sequence-Safe id = record {
    at = λ m s.
        put_state-Safe m id empty_state s.held s.books (λ b. omega (arith, s.covered b)) s.distinct;
  }

  -- A stored sequence's table out, and its references with it.
  pub given_up :
      (m : Manager T B) (id : ℤ) (c : SequenceState) (s : Safe m)
      → get m.sequences id ≡ some c
      → Safe (free_blocks c.block_table (record m { sequences = remove m.sequences id })).1
  given_up m id c s e =
      let m' = record m { sequences = remove m.sequences id } in
      let left : (b : ℕ) → holders (remove m.sequences id) b + count b c.block_table ≤ s.held b =
        λ b. omega (
          arith,
          s.covered b,
          total-remove (λ x. count b x.block_table) m.sequences id c s.distinct e,
        ) in
      let (done, books, frame) =
        free_blocks-Books m' (λ b. s.held b - count b c.block_table) c.block_table
          (with_tables _ (Books-cong s.held _ (λ b. omega (arith, left b)) s.books)) in
      Framed-Safe m' _ _ frame books (λ b. omega (arith, left b))
        (remove-Distinct m.sequences id s.distinct)

  pub free_sequence-Safe : (id : ℤ) → IsSafe {T = T} {B = B} (free_sequence id)
  unfolding free_sequence
  free_sequence-Safe id = record {
    at = λ m s. elim (Option-cases (get m.sequences id)) [
      | inl e ↦ rw (e, pop_state) s
      | inr (c, e) ↦ rw (e, pop_state) (given_up m id c s e)
    ];
  }

  -- A new context length moves no block.
  context-Safe :
      (m : Manager T B) (id : ℤ) (c : SequenceState) (n : ℕ)
      → get m.sequences id ≡ some c
      → Safe m
      → Safe (put_state id (record c { context_len = n }) m).1
  context-Safe m id c n e s =
      replace_state-Safe m id c (record c { context_len = n }) s.held e s.books
        (λ b. omega (arith, s.covered b)) s.distinct

  pub rollback-Safe : (id : ℤ) (n : ℕ) → IsSafe {T = T} {B = B} (rollback id n)
  unfolding rollback
  rollback-Safe id n = record {
    at = λ m s. elim (Option-cases (get m.sequences id)) [
      | inl e ↦ rw (e, state_of) s
      | inr (c, e) ↦ rw (e, state_of) (context-Safe m id c _ e s)
    ];
  }

  pub advance-Safe : (id : ℤ) (n : ℕ) → IsSafe {T = T} {B = B} (advance id n)
  unfolding advance
  advance-Safe id n = record {
    at = λ m s. elim (Option-cases (get m.sequences id)) [
      | inl e ↦ rw (e, state_of) s
      | inr (c, e) ↦ rw (e, state_of) (context-Safe m id c _ e s)
    ];
  }

  pub context_len-Safe : (id : ℤ) → IsSafe {T = T} {B = B} (context_len id)
  unfolding context_len
  context_len-Safe id = search (keeps_rules, state_of-Keeps)

  -- One more block at the end of a stored table.
  extend-Safe :
      (m : Manager T B) (id : ℤ) (c : SequenceState)
      → get m.sequences id ≡ some c
      → Safe m
      → Safe (extend id c m).1
  extend-Safe m id c e s = elim (allocate-Owned s.held s.books.owned) [
    | inl (_, fails) ↦ rw fails s
    | inr (b, _, _, done, owned, _, _) ↦
        let m' = record m { allocator = (allocate m.allocator).1 } in
        rw done (
          replace_state-Safe m' id c (record c { block_table = c.block_table ++ b ∷ [] })
            (bump s.held b) e
            (record {
              owned = owned;
              indexed = s.books.indexed;
              live = λ j i g. ground (arith, s.books.live j i g);
            })
            (λ j. ground (arith, s.covered j, count-append j c.block_table (b ∷ []))) s.distinct)
  ]

  grow-Safe : (id : ℤ) (i : ℕ) → IsSafe {T = T} {B = B} (grow id i)
  unfolding grow
  grow-Safe id i = record {
    at = λ m s. elim (Option-cases (get m.sequences id)) [
      | inl e ↦ rw (e, state_of) s
      | inr (c, e) ↦
          rw (e, state_of)
            (elim (Bool-cases (i == length c.block_table)) [
              | inl at_end ↦ rw at_end (extend-Safe m id c e s)
              | inr inside ↦ rw inside s
            ])
    ];
  }

  block_at-Safe : (id : ℤ) (i : ℕ) → IsSafe {T = T} {B = B} (block_at id i)
  block_at-Safe id i = record {
    at = λ m s. elim (Option-cases (get m.sequences id)) [
      | inl e ↦ rw (e, state_of) s
      | inr (c, e) ↦
          rw (e, state_of)
            (elim (Option-cases (get_elem? c.block_table i)) [
              | inl out ↦ rw (out, after) s
              | inr (b, at) ↦ rw (at, after) s
            ])
    ];
  }

  reserve_from-Safe :
      (k : ℕ) (id : ℤ) (n pos : ℕ) → IsSafe {T = T} {B = B} (reserve_from k id n pos)
  unfolding reserve_from
  reserve_from-Safe k id zero pos = Keeps-pure []
  reserve_from-Safe k id (suc n) pos = Keeps-bind (grow-Safe id (pos / k)) λ _.
      Keeps-bind (block_at-Safe id (pos / k))
        λ b. Keeps-bind (reserve_from-Safe k id n (pos + 1)) λ rest. Keeps-pure _

  pub reserve-Safe : (id : ℤ) (n : ℕ) → IsSafe {T = T} {B = B} (reserve id n)
  unfolding reserve
  reserve-Safe id n = record {
    at = λ m s.
        (Keeps-bind (state_of-Keeps id) (λ c. reserve_from-Safe m.block_size id n c.context_len)).at
          m s;
  }
