-- ===== src/Kv/Prefix.antt =====
-- Prefix caching in src/wllm/engine/kv_cache.py. Python's `hash` of (parent_hash, tokens) is a parameter.
use w_llm.Base.{
  ℕ, zero, suc, ◌-◌, ◌/◌, ◌%◌, ◌*◌, true, false, Option, none, some, List, [], ◌∷◌, length, take,
  drop, ◌==◌, if◌then◌else◌, list_beq,
}
use w_llm.Base.Int.{ℤ, int_eq}
use w_llm.Base.{nat_eq}
use w_llm.Base.Dict.{get, put}
use w_llm.Base.Outcome.{Act, Result, ok, err, key_error, index_error, ◌>>=◌}
use w_llm.Kv.Manager.{Manager, state_of}

-- At least one token stays unmatched.
unfoldable pub full_blocks : ℕ → List ℕ → ℕ
full_blocks block_size tokens =
    if length tokens % block_size == 0
    then length tokens / block_size - 1
    else length tokens / block_size

module _ {T B : Type 0} where
  unfoldable pub register_block : ℕ → ℤ → List ℕ → Manager T B → Manager T B
  register_block b block_hash chunk m = elim (get m.block_hash_info b) [
    | some _ ↦ m
    | none ↦ record m {
      hash_to_block = put m.hash_to_block block_hash b;
      block_hash_info = put m.block_hash_info b (block_hash, chunk);
    }
  ]

module _ (hash : Option ℤ → List ℕ → ℤ) {T B : Type 0} where
  -- The loop of match_prefix over `n` whole blocks; `tokens` is what lies ahead.
  unfoldable pub match_blocks : ℕ → Option ℤ → List ℕ → Manager T B → Result (List ℕ)
  match_blocks zero parent tokens m = ok []
  match_blocks (suc n) parent tokens m =
      let chunk = take m.block_size tokens in
      let block_hash = hash parent chunk in
      elim (get m.hash_to_block block_hash) [
        | none ↦ ok []
        | some b ↦ elim (get m.block_hash_info b) [
          | none ↦ err key_error
          | some (_, stored) ↦ elim (list_beq stored chunk) [
            | false ↦ ok []
            | true ↦ elim (match_blocks n (some block_hash) (drop m.block_size tokens) m) [
              | ok bs ↦ ok (b ∷ bs)
              | err e ↦ err e
            ]
          ]
        ]
      ]

  unfoldable pub match_prefix : List ℕ → Manager T B → Result (List ℕ × ℕ)
  match_prefix tokens m =
      if m.enable_prefix_caching
      then (elim (match_blocks (full_blocks m.block_size tokens) none tokens m) [
        | ok bs ↦ ok (bs, length bs * m.block_size)
        | err e ↦ err e
      ])
      else ok ([], 0)

  -- The loop of register_prefix_blocks over `n` whole blocks and the rest of the block table.
  unfoldable pub register_blocks : ℕ → Option ℤ → List ℕ → List ℕ → Act (Manager T B) (Unit {0})
  register_blocks zero parent tokens table m = (ok tt, m)
  register_blocks (suc n) parent tokens [] m = (err index_error, m)
  register_blocks (suc n) parent tokens (b ∷ table) m =
      let chunk = take m.block_size tokens in
      let block_hash = hash parent chunk in
      register_blocks n (some block_hash) (drop m.block_size tokens) table
        (register_block b block_hash chunk m)

  unfoldable pub register_prefix_blocks : ℤ → List ℕ → Act (Manager T B) (Unit {0})
  register_prefix_blocks id tokens m =
      if m.enable_prefix_caching
      then ((do
        s ← state_of id
        register_blocks (length tokens / m.block_size) none tokens s.block_table)
          m)
      else (ok tt, m)
