-- ===== src/Kv/Ownership/Prefix.antt =====
-- The prefix index of src/wllm/engine/kv_cache.py: what `match_prefix` returns and what registering keeps.
use w_llm.Base.{
  ℕ, zero, suc, ◌-◌, ◌*◌, ◌/◌, ◌%◌, ◌≤◌, ◌<◌, ◌≡◌, refl, ◌∙◌, sym, ap, subst, inl, inr, Option,
  none, some, List, [], ◌∷◌, length, take, drop, count, ◌==◌, ==_iff, arith, Bool-cases,
  Option-cases, nat_eq, list_beq, list_beq→eq,
}
use w_llm.Base.Int.{ℤ, int_eq, int_beq_iff}
use w_llm.Base.Dict.{Dict, get, put, get-put, weight-le-total}
use w_llm.Base.Outcome.{ok}
use w_llm.Kv.Manager.{Manager, SequenceState, state_of, create_sequence_from_prefix}
use w_llm.Kv.Prefix.{
  match_blocks, match_prefix, full_blocks, register_block, register_blocks, register_prefix_blocks,
}
use w_llm.Kv.Books.{Books}
use w_llm.Kv.Ownership.{Inv, holders, seal, create_sequence_from_prefix-Inv, started_at}

part_left : (n k : ℕ) → 0 < n % k → n / k * k < n
part_left n k h = grind arith

lt_of_mul_le : (a b k n : ℕ) → a ≤ b → b * k < n → a * k < n
lt_of_mul_le a b k n h p = grind arith

short_of : (n k : ℕ) → 0 < k → 0 < n → (n / k - 1) * k < n
short_of n k h p = grind arith

full_blocks-lt :
    (k : ℕ) (tokens : List ℕ) → 0 < k → 0 < length tokens → full_blocks k tokens * k < length tokens
unfolding full_blocks
full_blocks-lt k tokens sz some_token = elim (Bool-cases (length tokens % k == 0)) [
  | inl whole ↦ rw whole (short_of (length tokens) k sz some_token)
  | inr part ↦ rw part (part_left (length tokens) k (ground arith))
]

module _ (hash : Option ℤ → List ℕ → ℤ) {T B : Type 0} where
  -- The blocks follow the hash chain from `parent`: each is registered with the hash of the chain so
  -- far and with exactly the tokens that stand there.
  abbrev pub Chain : Manager T B → Option ℤ → List ℕ → List ℕ → Type 0
  Chain m parent tokens [] = Unit
  Chain m parent tokens (b ∷ bs) =
      (get m.block_hash_info b
        ≡ some (hash parent (take m.block_size tokens), take m.block_size tokens))
      × Chain m (some (hash parent (take m.block_size tokens))) (drop m.block_size tokens) bs

  -- The walk never meets a stale entry: it returns, with a chain of registered blocks.
  pub match_blocks-Chain :
      (n : ℕ) (parent : Option ℤ) (tokens : List ℕ) (m : Manager T B) (held : ℕ → ℕ)
      → Books m held
      → (bs : List ℕ) × (match_blocks hash n parent tokens m ≡ ok bs)
        × (length bs ≤ n)
        × Chain m parent tokens bs
  unfolding match_blocks
  match_blocks-Chain zero parent tokens m held v = ([], refl, omega arith, tt)
  match_blocks-Chain (suc n) parent tokens m held v =
      elim (Option-cases (get m.hash_to_block (hash parent (take m.block_size tokens)))) [
        | inl miss ↦ ([], rw (miss, match_blocks), omega arith, tt)
        | inr (b, hit) ↦
            let (stored, info) = v.indexed _ b hit in
            elim (Bool-cases (list_beq stored (take m.block_size tokens))) [
              | inr other ↦ ([], rw (hit, match_blocks) (rw info (rw other)), omega arith, tt)
              | inl same ↦
                  let (bs, found, short, chain) =
                    match_blocks-Chain n (some (hash parent (take m.block_size tokens)))
                      (drop m.block_size tokens) m held v in
                  (
                    b ∷ bs,
                    rw (hit, match_blocks) (rw info (rw same (rw found))),
                    omega (arith, short),
                    (
                      info
                          ∙ ap (λ c. some (hash parent (take m.block_size tokens), c))
                              (list_beq→eq _ _ same),
                      chain,
                    ),
                  )
            ]
      ]

  -- Matched blocks are held, so that a reference can be added to each.
  pub Chain-held :
      (m : Manager T B) (held : ℕ → ℕ) (parent : Option ℤ) (tokens bs : List ℕ)
      → Books m held
      → Chain m parent tokens bs
      → (b : ℕ) → 0 < count b bs
      → 0 < held b
  Chain-held m held parent tokens [] v c b p = absurd (omega arith)
  Chain-held m held parent tokens (x ∷ bs) v (info, rest) b p = elim (Bool-cases (x == b)) [
    | inl here ↦ subst (λ y. 0 < held y) ((==_iff x b).0 here) (v.live x _ info)
    | inr there ↦
        Chain-held m held (some (hash parent (take m.block_size tokens))) (drop m.block_size tokens)
          bs v rest b (ground arith)
  ]

  -- `match_prefix` never meets a stale index entry. What it returns is a chain of registered blocks
  -- that carry exactly the tokens they stand for, and at least one token is left over.
  pub match_prefix-Chain :
      (tokens : List ℕ) (m : Manager T B)
      → Inv m
      → 0 < m.block_size
      → 0 < length tokens
      → (bs : List ℕ) × (match_prefix hash tokens m ≡ ok (bs, length bs * m.block_size))
        × (length bs * m.block_size < length tokens)
        × Chain m none tokens bs
  unfolding match_prefix
  match_prefix-Chain tokens m v sz some_token = elim (Bool-cases m.enable_prefix_caching) [
    | inr off ↦ ([], simp off (ground arith), omega arith, tt)
    | inl on ↦
        let (bs, found, short, chain) =
          match_blocks-Chain (full_blocks m.block_size tokens) none tokens m _ v.books in
        (
          bs,
          simp (on, found),
          lt_of_mul_le (length bs) _ m.block_size _ short
              (full_blocks-lt m.block_size tokens sz some_token),
          chain,
        )
  ]

  -- A new sequence takes over what `match_prefix` returned for it: the call succeeds, no block is lost
  -- or shared without a reference, only the new block table is added, and the prompt keeps at least
  -- one token to prefill.
  pub match_prefix-create :
      (tokens : List ℕ) (m : Manager T B) (id : ℤ)
      → get m.sequences id ≡ none
      → Inv m
      → 0 < m.block_size
      → 0 < length tokens
      → (bs : List ℕ) × (match_prefix hash tokens m ≡ ok (bs, length bs * m.block_size))
        × (length bs * m.block_size < length tokens)
        × ((create_sequence_from_prefix id bs m).0 ≡ ok tt)
        × Inv (create_sequence_from_prefix id bs m).1
        × ((create_sequence_from_prefix id bs m).1.sequences ≡ put m.sequences id (started_at m bs))
        × ((create_sequence_from_prefix id bs m).1.block_size ≡ m.block_size)
  match_prefix-create tokens m id new v sz some_token =
      let (bs, found, short, chain) = match_prefix-Chain tokens m v sz some_token in
      let (done, inv, states, size) =
        create_sequence_from_prefix-Inv m id bs new (Chain-held m _ none tokens bs v.books chain)
          v in
      (bs, found, short, done, inv, states, size)

module _ {T B : Type 0} where
  pub register_block-Books :
      (m : Manager T B) (b : ℕ) (h : ℤ) (chunk : List ℕ) (held : ℕ → ℕ)
      → 0 < held b
      → Books m held
      → Books (register_block b h chunk m) held
  unfolding register_block
  register_block-Books m b h chunk held p v = elim (Option-cases (get m.block_hash_info b)) [
    | inr (i, e) ↦ rw (e, register_block) v
    | inl e ↦
        rw (e, register_block)
          (record {
            owned = v.owned;
            indexed = λ j c g. indexed e j c g;
            live = λ j i g. ground (arith, get-put m.block_hash_info b j (h, chunk), v.live j i, p);
          })
  ]
    where
      indexed :
          get m.block_hash_info b ≡ none
          → (j : ℤ) (c : ℕ) → get (put m.hash_to_block h b) j ≡ some c
          → (chunk' : List ℕ) × (get (put m.block_hash_info b (h, chunk)) c ≡ some (j, chunk'))
      indexed e j c g = elim (Bool-cases (int_eq.beq h j)) [
        | inl same ↦ (
          chunk,
          ground (
            arith,
            get-put m.hash_to_block h j b,
            get-put m.block_hash_info b c (h, chunk),
            int_beq_iff h j,
          ),
        )
        | inr other ↦
            let (chunk', info) = v.indexed j c (ground (arith, get-put m.hash_to_block h j b)) in
            (chunk', ground (arith, info, get-put m.block_hash_info b c (h, chunk)))
      ]

  pub register_block-sequences :
      (m : Manager T B) (b : ℕ) (h : ℤ) (chunk : List ℕ)
      → (register_block b h chunk m).sequences ≡ m.sequences
  unfolding register_block
  register_block-sequences m b h chunk = ground arith

  register_block_size :
      (m : Manager T B) (b : ℕ) (h : ℤ) (chunk : List ℕ)
      → (register_block b h chunk m).block_size ≡ m.block_size
  unfolding register_block
  register_block_size m b h chunk = ground arith

-- Every block of a sequence's table is held, at least by that sequence.
pub table-held :
    (d : Dict ℤ SequenceState) (id : ℤ) (s : SequenceState)
    → get d id ≡ some s
    → (b : ℕ) → 0 < count b s.block_table
    → 0 < holders d b
table-held d id s e b p = omega (arith, weight-le-total (λ x. count b x.block_table) d id s e)

module _ (hash : Option ℤ → List ℕ → ℤ) {T B : Type 0} where
  register_blocks-Inv :
      (n : ℕ) (parent : Option ℤ) (tokens table : List ℕ) (m : Manager T B)
      → ((b : ℕ) → 0 < count b table → 0 < holders m.sequences b)
      → n ≤ length table
      → Inv m
      → ((register_blocks hash n parent tokens table m).0 ≡ ok tt)
        × Inv (register_blocks hash n parent tokens table m).1
        × ((register_blocks hash n parent tokens table m).1.sequences ≡ m.sequences)
  unfolding register_blocks
  register_blocks-Inv zero parent tokens table m held short v = (refl, v, refl)
  register_blocks-Inv (suc n) parent tokens [] m held short v = absurd (omega arith)
  register_blocks-Inv (suc n) parent tokens (b ∷ table) m held short v =
      let h = hash parent (take m.block_size tokens) in
      let m' = register_block b h (take m.block_size tokens) m in
      let same = register_block-sequences m b h (take m.block_size tokens) in
      let (done, inv, kept) =
        register_blocks-Inv n (some h) (drop m.block_size tokens) table m'
          (λ j p. subst (λ d. 0 < holders d j) (sym same) (held j (ground arith))) (omega arith)
          (seal m.sequences same v.distinct
            (register_block-Books m b h _ _ (held b (ground arith)) v.books)) in
      (done, inv, kept ∙ same)

  -- Registering a prompt's blocks, once they are all in the block table, keeps the index right.
  pub register_prefix_blocks-Inv :
      (m : Manager T B) (id : ℤ) (s : SequenceState) (tokens : List ℕ)
      → get m.sequences id ≡ some s
      → length tokens / m.block_size ≤ length s.block_table
      → Inv m
      → ((register_prefix_blocks hash id tokens m).0 ≡ ok tt)
        × Inv (register_prefix_blocks hash id tokens m).1
        × ((register_prefix_blocks hash id tokens m).1.sequences ≡ m.sequences)
  unfolding register_prefix_blocks
  register_prefix_blocks-Inv m id s tokens e covered v = elim (Bool-cases m.enable_prefix_caching) [
    | inr off ↦ simp off (refl, v, refl)
    | inl on ↦ simp on (
        rw (e, state_of)
          (register_blocks-Inv (length tokens / m.block_size) none tokens s.block_table m
            (table-held m.sequences id s e) covered v))
  ]

  -- Registering does not change the size of a block.
  register_blocks_size :
      (n : ℕ) (parent : Option ℤ) (tokens table : List ℕ) (m : Manager T B)
      → (register_blocks hash n parent tokens table m).1.block_size ≡ m.block_size
  unfolding register_blocks
  register_blocks_size zero parent tokens table m = refl
  register_blocks_size (suc n) parent tokens [] m = refl
  register_blocks_size (suc n) parent tokens (b ∷ table) m =
      let h = hash parent (take m.block_size tokens) in
      register_blocks_size n (some h) (drop m.block_size tokens) table
        (register_block b h (take m.block_size tokens) m)
      ∙ register_block_size m b h (take m.block_size tokens)

  pub register_prefix_blocks_size :
      (m : Manager T B) (id : ℤ) (s : SequenceState) (tokens : List ℕ)
      → get m.sequences id ≡ some s
      → (register_prefix_blocks hash id tokens m).1.block_size ≡ m.block_size
  unfolding register_prefix_blocks
  register_prefix_blocks_size m id s tokens e = elim (Bool-cases m.enable_prefix_caching) [
    | inr off ↦ simp off refl
    | inl on ↦ simp on (
        rw (e, state_of)
          (register_blocks_size (length tokens / m.block_size) none tokens s.block_table m))
  ]
