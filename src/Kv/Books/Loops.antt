-- ===== src/Kv/Books/Loops.antt =====
-- The loops over block tables in src/wllm/engine/kv_cache.py keep the books.
use w_llm.Base.{
  ℕ, zero, suc, ◌+◌, ◌≤◌, ◌<◌, ◌≡◌, refl, ap, inl, inr, List, [], ◌∷◌, length, count, arith, nat_eq,
}
use w_llm.Base.Int.{int_eq}
use w_llm.Base.Outcome.{ok}
use w_llm.Kv.Allocator.{allocate, add_ref, num_free}
use w_llm.Kv.Allocator.Owned.{bump, allocate-Owned, add_ref-Owned}
use w_llm.Kv.Manager.{Manager, add_refs, free_block, free_blocks}
use w_llm.Kv.Swap.{allocate_all}
use w_llm.Kv.Books.{
  Books, Books-cong, Framed, Framed-refl, Framed-trans, allocator-Framed, free_block-Books,
}

-- Fresh blocks: nobody held them, and none comes twice.
pub record IsFresh (held : ℕ → ℕ) (bs : List ℕ) : Type 0 where
  pub unheld : (b : ℕ) → 0 < count b bs → held b ≡ 0
  pub once : (b : ℕ) → count b bs ≤ 1

module _ {T B : Type 0} where
  -- All the references that a block table held.
  pub free_blocks-Books :
      (m : Manager T B) (held : ℕ → ℕ) (bs : List ℕ)
      → Books m (λ j. held j + count j bs)
      → ((free_blocks bs m).0 ≡ ok tt)
        × Books (free_blocks bs m).1 held
        × Framed m (free_blocks bs m).1
  unfolding free_blocks
  free_blocks-Books m held [] k = (refl, Books-cong _ held (λ j. omega arith) k, Framed-refl m)
  free_blocks-Books m held (b ∷ bs) k =
      let (done, books, frame) = free_block-Books m _ b k (ground arith) in
      let (done', books', frame') =
        free_blocks-Books (free_block b m).1 held bs (Books-cong _ _ (λ j. ground arith) books) in
      rw done (done', books', Framed-trans frame frame')

  -- One more reference to each block of a matched prefix.
  pub add_refs-Books :
      (m : Manager T B) (held : ℕ → ℕ) (bs : List ℕ)
      → Books m held
      → ((b : ℕ) → 0 < count b bs → 0 < held b)
      → ((add_refs bs m).0 ≡ ok tt)
        × Books (add_refs bs m).1 (λ j. held j + count j bs)
        × Framed m (add_refs bs m).1
  unfolding add_refs
  add_refs-Books m held [] k h = (refl, Books-cong held _ (λ j. omega arith) k, Framed-refl m)
  add_refs-Books m held (b ∷ bs) k h =
      let (done, books, _, same) = add_ref-Owned held k.owned b (h b (ground arith)) in
      let (done', books', frame') =
        add_refs-Books (record m { allocator = (add_ref b m.allocator).1 }) (bump held b) bs
          (record {
            owned = books;
            indexed = k.indexed;
            live = λ j i g. ground (arith, k.live j i g);
          })
          (λ j p. ground (arith, h j)) in
      rw done (
        done',
        Books-cong _ _ (λ j. ground arith) books',
        Framed-trans (allocator-Framed m _ same) frame',
      )

  pub allocate_all-Books :
      (m : Manager T B) (held : ℕ → ℕ) (n : ℕ)
      → Books m held
      → n ≤ num_free m.allocator
      → (bs : List ℕ) × ((allocate_all n m).0 ≡ ok bs)
        × (length bs ≡ n)
        × IsFresh held bs
        × Books (allocate_all n m).1 (λ j. held j + count j bs)
        × Framed m (allocate_all n m).1
  unfolding allocate_all
  allocate_all-Books m held zero k h = (
    [],
    refl,
    refl,
    record { unheld = λ b p. absurd (omega arith); once = λ b. omega arith },
    Books-cong held _ (λ j. omega arith) k,
    Framed-refl m,
  )
  allocate_all-Books m held (suc n) k h = elim (allocate-Owned held k.owned) [
    | inl (none_left, _) ↦ absurd (omega (arith, ap length none_left))
    | inr (b, _, unheld, done, books, fewer, same) ↦
        let m' = record m { allocator = (allocate m.allocator).1 } in
        let k' : Books m' (bump held b) = record {
          owned = books;
          indexed = k.indexed;
          live = λ j i g. ground (arith, k.live j i g);
        } in
        let (bs, done', long, fresh, books', frame') =
          allocate_all-Books m' (bump held b) n k' (omega arith) in
        rw (done, done')
          (
            b ∷ bs,
            refl,
            ap suc long,
            record {
              unheld = λ j p. ground (arith, fresh.unheld j);
              once = λ j. ground (arith, fresh.unheld j, fresh.once j);
            },
            Books-cong _ _ (λ j. ground arith) books',
            Framed-trans (allocator-Framed m _ same) frame',
          )
  ]
