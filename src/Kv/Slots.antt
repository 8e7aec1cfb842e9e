-- ===== src/Kv/Slots.antt =====
-- The token slots of a sequence in src/wllm/engine/kv_cache.py: reserving, writing, gathering them.
use w_llm.Base.{
  ℕ, zero, suc, ◌+◌, ◌-◌, ◌*◌, ◌/◌, ◌%◌, none, some, List, [], ◌∷◌, ◌++◌, map, length, get_elem?,
  replicate, take, ◌==◌, if◌then◌else◌, leb,
}
use w_llm.Base.Int.{ℤ}
use w_llm.Base.Outcome.{Act, Result, ok, err, index_error, ◌>>=◌, ◌>>◌, pure}
use w_llm.Kv.Allocator.{allocate}
use w_llm.Kv.Storage.{Storage}
use w_llm.Kv.Manager.{Manager, SequenceState, on_allocator, state_of, put_state}

unfoldable pub longest : List SequenceState → ℕ
longest [] = 0
longest (s ∷ rest) =
    let n = longest rest in if leb n (length s.block_table) then length s.block_table else n

module _ {T B : Type 0} where
  unfoldable pub context_len : ℤ → Act (Manager T B) ℕ
  context_len id = do s ← state_of id; pure s.context_len

  -- `num_tokens` never exceeds the context length at a call; there Python's difference is this one.
  unfoldable pub rollback : ℤ → ℕ → Act (Manager T B) (Unit {0})
  rollback id num_tokens = do
    s ← state_of id
    put_state id (record s { context_len = s.context_len - num_tokens })

  unfoldable pub advance : ℤ → ℕ → Act (Manager T B) (Unit {0})
  advance id num_new_tokens = do
    s ← state_of id
    put_state id (record s { context_len = s.context_len + num_new_tokens })

  abbrev pub extend : ℤ → SequenceState → Act (Manager T B) (Unit {0})
  extend id s = do
    b ← on_allocator allocate
    put_state id (record s { block_table = s.block_table ++ b ∷ [] })

  -- if block_idx_in_seq == len(state.block_table): append a fresh block
  unfoldable pub grow : ℤ → ℕ → Act (Manager T B) (Unit {0})
  grow id block_idx = do
    s ← state_of id
    if block_idx == length s.block_table then extend id s else pure tt

  -- state.block_table[i]
  abbrev pub block_at : ℤ → ℕ → Act (Manager T B) ℕ
  block_at id i m =
      (do
        s ← state_of id
        λ m'. elim (get_elem? s.block_table i) [
          | none ↦ (err index_error, m')
          | some b ↦ (ok b, m')
        ])
        m

  unfoldable pub reserve_from : ℕ → ℤ → ℕ → ℕ → Act (Manager T B) (List (ℕ × ℕ))
  reserve_from block_size id zero pos = pure []
  reserve_from block_size id (suc n) pos = do
    grow id (pos / block_size)
    b ← block_at id (pos / block_size)
    rest ← reserve_from block_size id n (pos + 1)
    pure ((b, pos % block_size) ∷ rest)

  unfoldable pub reserve : ℤ → ℕ → Act (Manager T B) (List (ℕ × ℕ))
  unfolding reserve_from grow
  reserve id num_new_tokens m =
      (do s ← state_of id; reserve_from m.block_size id num_new_tokens s.context_len) m

  -- The block table and the context length of each sequence of a batch.
  unfoldable pub states_of : List ℤ → Act (Manager T B) (List SequenceState)
  states_of [] = pure []
  states_of (id ∷ ids) = do s ← state_of id; rest ← states_of ids; pure (s ∷ rest)

  -- Each row is a block table, padded with block 0 to the longest one.
  unfoldable pub block_tables_tensor : List ℤ → Act (Manager T B) (List (List ℕ))
  unfolding longest states_of
  block_tables_tensor ids = do
    states ← states_of ids
    pure (map (λ s. s.block_table ++ replicate (longest states - length s.block_table) 0) states)

  unfoldable pub context_lens_tensor : List ℤ → Act (Manager T B) (List ℕ)
  unfolding states_of
  context_lens_tensor ids = do states ← states_of ids; pure (map (λ s. s.context_len) states)

module _ {T B V : Type 0} (st : Storage T B V) where
  -- The writes of `write` to one tensor: key[i] goes to positions[i].
  unfoldable pub write_slots : List (ℕ × ℕ) → List V → T → Result T
  write_slots [] vs t = ok t
  write_slots (p ∷ ps) [] t = err index_error
  write_slots ((b, s) ∷ ps) (v ∷ vs) t = write_slots ps vs (st.write t b s v)

  -- t[idx].reshape(-1, ...), from a position on.
  unfoldable pub flat_rows : ℕ → T → List ℕ → ℕ → ℕ → List V
  flat_rows block_size t idx p zero = []
  flat_rows block_size t idx p (suc n) =
      st.row (st.gather t idx) (p / block_size) (p % block_size)
      ∷ flat_rows block_size t idx (p + 1) n

  -- t[idx].reshape(-1, ...)[:prefix_len], for one tensor.
  unfoldable pub gather_slots : ℕ → T → List ℕ → ℕ → List V
  unfolding flat_rows
  gather_slots block_size t idx prefix_len =
      take prefix_len (flat_rows block_size t idx 0 (length idx * block_size))
