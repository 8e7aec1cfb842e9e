-- ===== src/Kv/Safe/Shared.antt =====
-- Prefix sharing in src/wllm/engine/kv_cache.py, on every path: the blocks of a match are held by
-- somebody, so that they can be shared, and the index names held blocks only.
use w_llm.Base.{
  ℕ, zero, suc, ◌+◌, ◌/◌, ◌*◌, ◌≤◌, ◌<◌, ◌≡◌, ◌∙◌, sym, subst, inl, inr, Option, none, some, List,
  [], ◌∷◌, length, take, drop, count, arith, Option-cases, Bool-cases, nat_eq,
}
use w_llm.Base.Int.{ℤ, int_eq}
use w_llm.Base.Dict.{Distinct, get}
use w_llm.Base.Outcome.{ok, ok-inj}
use w_llm.Kv.Manager.{Manager, add_refs, state_of, create_sequence_from_prefix}
use w_llm.Kv.Prefix.{
  match_prefix, full_blocks, register_block, register_blocks, register_prefix_blocks,
}
use w_llm.Kv.Books.{Books}
use w_llm.Kv.Books.Loops.{add_refs-Books}
use w_llm.Kv.Ownership.{holders}
use w_llm.Kv.Ownership.Prefix.{
  table-held, match_blocks-Chain, Chain-held, register_block-Books, register_block-sequences,
}
use w_llm.Kv.Safe.{Safe, IsSafe, put_state-Safe}

-- Every block of the list has a holder.
abbrev pub AllHeld : (ℕ → ℕ) → List ℕ → Type 0
AllHeld held bs = (b : ℕ) → 0 < count b bs → 0 < held b

module _ {T B : Type 0} where
  -- A sequence that starts from held blocks, whatever its id stood for before.
  pub create_sequence_from_prefix-Safe :
      (m : Manager T B) (id : ℤ) (bs : List ℕ) (s : Safe m)
      → AllHeld s.held bs
      → Safe (create_sequence_from_prefix id bs m).1
  unfolding create_sequence_from_prefix
  create_sequence_from_prefix-Safe m id bs s held =
      let (done, books, frame) = add_refs-Books m s.held bs s.books held in
      let m' = (add_refs bs m).1 in
      rw done (
        put_state-Safe m' id _ _ books
          (λ b.
            subst (λ d. holders d b + count b bs ≤ s.held b + count b bs) (sym frame.sequences)
              (omega (arith, s.covered b)))
          (subst Distinct (sym frame.sequences) s.distinct))

module _ (hash : Option ℤ → List ℕ → ℤ) {T B : Type 0} where
  -- What a match returns is held.
  pub match_prefix-AllHeld :
      (tokens : List ℕ) (m : Manager T B) (s : Safe m) (r : List ℕ × ℕ)
      → match_prefix hash tokens m ≡ ok r
      → AllHeld s.held r.0
  unfolding match_prefix
  match_prefix-AllHeld tokens m s r run = elim (Bool-cases m.enable_prefix_caching) [
    | inr off ↦
        let none_matched : match_prefix hash tokens m ≡ ok ([], 0) = simp off in
        subst (λ x. AllHeld s.held x.0) (ok-inj (sym none_matched ∙ run))
          (λ b p. absurd (omega arith))
    | inl on ↦
        let (bs, found, _, chain) =
          match_blocks-Chain hash (full_blocks m.block_size tokens) none tokens m s.held s.books in
        let matched : match_prefix hash tokens m ≡ ok (bs, length bs * m.block_size) =
          simp (on, found) in
        subst (λ x. AllHeld s.held x.0) (ok-inj (sym matched ∙ run))
          (Chain-held hash m s.held none tokens bs s.books chain)
  ]

  -- Registering: each block of the table is held, the index does not move the tables, and a table
  -- that is too short raises half-way.
  register_blocks-Safe :
      (n : ℕ) (parent : Option ℤ) (tokens table : List ℕ) (m : Manager T B) (held : ℕ → ℕ)
      → Books m held
      → ((b : ℕ) → holders m.sequences b ≤ held b)
      → Distinct m.sequences
      → AllHeld held table
      → Safe (register_blocks hash n parent tokens table m).1
  unfolding register_blocks
  register_blocks-Safe zero parent tokens table m held k c u some_held = record {
    held = held;
    books = k;
    covered = c;
    distinct = u;
  }
  register_blocks-Safe (suc n) parent tokens [] m held k c u some_held = record {
    held = held;
    books = k;
    covered = c;
    distinct = u;
  }
  register_blocks-Safe (suc n) parent tokens (b ∷ table) m held k c u some_held =
      let h = hash parent (take m.block_size tokens) in
      let chunk = take m.block_size tokens in
      let same = register_block-sequences m b h chunk in
      register_blocks-Safe n (some h) (drop m.block_size tokens) table (register_block b h chunk m)
        held (register_block-Books m b h chunk held (some_held b (ground arith)) k)
        (λ j. subst (λ d. holders d j ≤ held j) (sym same) (c j)) (subst Distinct (sym same) u)
        (λ j p. some_held j (ground arith))

  pub register_prefix_blocks-Safe :
      (id : ℤ) (tokens : List ℕ) → IsSafe {T = T} {B = B} (register_prefix_blocks hash id tokens)
  unfolding register_prefix_blocks
  register_prefix_blocks-Safe id tokens = record {
    at = λ m s. elim (Bool-cases m.enable_prefix_caching) [
      | inr off ↦ simp off s
      | inl on ↦ simp on (elim (Option-cases (get m.sequences id)) [
        | inl e ↦ rw (e, state_of) s
        | inr (c, e) ↦
            rw (e, state_of)
              (register_blocks-Safe (length tokens / m.block_size) none tokens c.block_table m
                s.held s.books s.covered s.distinct
                (λ b p. omega (arith, table-held m.sequences id c e b p, s.covered b)))
      ])
    ];
  }
