-- ===== src/Kv/Safe/Swap.antt =====
-- The CPU swap of src/wllm/engine/kv_cache.py, on every path. A swap-in that raises half-way leaves
-- the blocks that it took referenced and in no block table.
use w_llm.Base.{ℕ, zero, suc, ◌+◌, ◌≤◌, ◌≡◌, inl, inr, List, count, arith, Option-cases, nat_eq}
use w_llm.Base.Int.{ℤ, int_eq}
use w_llm.Base.Keeps.{Keeps-bind}
use w_llm.Base.Dict.{Distinct, get}
use w_llm.Base.Outcome.{ok, ok-inj, ok_not_err, Result-cases, after, ◌>>◌}
use w_llm.Kv.Allocator.{allocate}
use w_llm.Kv.Allocator.Owned.{allocate-Owned, bump}
use w_llm.Kv.Storage.{Storage}
use w_llm.Kv.Manager.{Manager, pop_state, put_state}
use w_llm.Kv.Swap.{
  swap_out, swap_in, allocate_all, blocks_for, pop_context_len, pop_snapshot, discard_swapped,
  restore_caches,
}
use w_llm.Kv.Books.{Books}
use w_llm.Kv.Ownership.{holders}
use w_llm.Kv.Safe.{Safe, IsSafe, put_state-Safe, others-Safe}
use w_llm.Kv.Safe.Calls.{given_up}

module _ {T B : Type 0} where
  pub discard_swapped-Safe : (id : ℤ) → IsSafe {T = T} {B = B} (discard_swapped id)
  unfolding discard_swapped
  discard_swapped-Safe id = record { at = λ m s. others-Safe m _ _ _ _ s }

  pop_context_len-Safe : (id : ℤ) → IsSafe {T = T} {B = B} (pop_context_len id)
  pop_context_len-Safe id = record {
    at = λ m s. elim (Option-cases (get m.swapped_context_len id)) [
      | inl e ↦ rw (e, pop_context_len) s
      | inr (n, e) ↦ rw (e, pop_context_len) (others-Safe m _ _ _ _ s)
    ];
  }

  pop_snapshot-Safe : (id : ℤ) → IsSafe {T = T} {B = B} (pop_snapshot id)
  pop_snapshot-Safe id = record {
    at = λ m s. elim (Option-cases (get m.swapped_kv id)) [
      | inl e ↦ rw (e, pop_snapshot) s
      | inr (n, e) ↦ rw (e, pop_snapshot) (others-Safe m _ _ _ _ s)
    ];
  }

  -- Safe books with room for more: `more` counts references to blocks that no block table accounts for.
  record Room (m : Manager T B) (more : ℕ → ℕ) : Type 0 where
    held : ℕ → ℕ
    books : Books m held
    paid : (b : ℕ) → holders m.sequences b + more b ≤ held b
    distinct : Distinct m.sequences

  Safe-Room : (m : Manager T B) → Safe m → Room m (λ _. 0)
  Safe-Room m s = record {
    held = s.held;
    books = s.books;
    paid = λ b. omega (arith, s.covered b);
    distinct = s.distinct;
  }

  Room-Safe : (m : Manager T B) (more : ℕ → ℕ) → Room m more → Safe m
  Room-Safe m more r = record {
    held = r.held;
    books = r.books;
    covered = λ b. omega (arith, r.paid b);
    distinct = r.distinct;
  }

  Room-cong : (m : Manager T B) (v w : ℕ → ℕ) → ((b : ℕ) → w b ≤ v b) → Room m v → Room m w
  Room-cong m v w le r = record {
    held = r.held;
    books = r.books;
    paid = λ b. omega (arith, r.paid b, le b);
    distinct = r.distinct;
  }

  -- The blocks taken one by one, until there are enough or the pool is empty.
  allocate_all-Room :
      (n : ℕ) (m : Manager T B) (more : ℕ → ℕ)
      → Room m more
      → Room (allocate_all n m).1 more
        × ((bs : List ℕ)
            → (allocate_all n m).0 ≡ ok bs
            → Room (allocate_all n m).1 (λ b. more b + count b bs))
  unfolding allocate_all
  allocate_all-Room zero m more r =
      (r, λ bs e. Room-cong m more _ (λ b. ground (arith, ok-inj e)) r)
  allocate_all-Room (suc n) m more r = elim (allocate-Owned r.held r.books.owned) [
    | inl (_, fails) ↦ rw fails (r, λ bs e. absurd (ok_not_err e))
    | inr (b, _, _, done, owned, _, _) ↦
        let m' = record m { allocator = (allocate m.allocator).1 } in
        let r' : Room m' (bump more b) = record {
          held = bump r.held b;
          books = record {
            owned = owned;
            indexed = r.books.indexed;
            live = λ j i g. ground (arith, r.books.live j i g);
          };
          paid = λ j. ground (arith, r.paid j);
          distinct = r.distinct;
        } in
        let (kept, enough) = allocate_all-Room n m' (bump more b) r' in
        rw done (elim (Result-cases (allocate_all n m').0) [
          | inr (e, fails) ↦
              rw fails (Room-cong _ _ more (λ j. ground arith) kept, λ bs g. absurd (ok_not_err g))
          | inl (bs, got) ↦ rw got (
            Room-cong _ _ more (λ j. ground arith) kept,
            λ bs' g. Room-cong _ _ _ (λ j. ground (arith, ok-inj g)) (enough bs got),
          )
        ])
  ]

module _ {T B V : Type 0} (st : Storage T B V) where
  pub swap_out-Safe : (id : ℤ) → IsSafe (swap_out st id)
  unfolding swap_out
  swap_out-Safe id = record {
    at = λ m s. elim (Option-cases (get m.sequences id)) [
      | inl e ↦ rw (e, pop_state) s
      | inr (c, e) ↦ rw (e, pop_state) (given_up _ id c (others-Safe m _ _ _ _ s) e)
    ];
  }

  -- The copies go back into the blocks just taken, and these become the table, if all goes well.
  filled-Safe :
      (id : ℤ) (n : ℕ) (copies : List (B × B)) (bs : List ℕ) (m : Manager T B)
      → Room m (λ b. count b bs)
      → Safe
          ((restore_caches st bs copies
              >> put_state id (record { block_table = bs; context_len = n }))
            m).1
  filled-Safe id n copies bs m r =
      let m' = (restore_caches st bs copies m).1 in
      let r' : Room m' (λ b. count b bs) = record {
        held = r.held;
        books = record { owned = r.books.owned; indexed = r.books.indexed; live = r.books.live };
        paid = r.paid;
        distinct = r.distinct;
      } in
      elim (Result-cases (restore_caches st bs copies m).0) [
        | inr (e, fails) ↦ rw (fails, after) (Room-Safe m' _ r')
        | inl (_, done) ↦
            rw (done, after) (put_state-Safe m' id _ r'.held r'.books r'.paid r'.distinct)
      ]

  pub swap_in-Safe : (id : ℤ) → IsSafe (swap_in st id)
  unfolding swap_in
  swap_in-Safe id = record {
    at = λ m s.
        (Keeps-bind (pop_context_len-Safe id) λ n. Keeps-bind (pop_snapshot-Safe id) λ copies.
            record {
              at = λ m' s'.
                  let (kept, enough) =
                    allocate_all-Room (blocks_for m.block_size n) m' (λ _. 0) (Safe-Room m' s') in
                  elim (Result-cases (allocate_all (blocks_for m.block_size n) m').0) [
                    | inr (e, fails) ↦ rw (fails, after) (Room-Safe _ _ kept)
                    | inl (bs, got) ↦
                        rw (got, after)
                          (filled-Safe id n copies bs _
                            (Room-cong _ _ _ (λ b. omega arith) (enough bs got)))
                  ];
            }).at
          m s;
  }
