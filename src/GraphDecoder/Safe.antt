-- ===== src/GraphDecoder/Safe.antt =====
-- Capturing and replaying (src/wllm/engine/cuda_graph_decoder.py) keep the cache safe on every path.
use w_llm.Base.{
  ℕ, zero, suc, ◌+◌, ◌-◌, ◌*◌, true, false, List, [], ◌∷◌, ◌++◌, length, ltb, replicate, take,
}
use w_llm.Base.Int.{ℤ, pos}
use w_llm.Base.Keeps.{Keeps, Keeps-bind, Keeps-pure, Keeps-raise, Keeps-result, Keeps-if}
use w_llm.Base.Outcome.{Act, index_error, pure, raise}
use w_llm.Kv.Manager.{Manager}
use w_llm.Kv.Slots.{block_tables_tensor, states_of}
use w_llm.Kv.Safe.{Safe, IsSafe, others-Safe, state_of-Keeps}
use w_llm.Kv.Safe.Calls.{context_len-Safe}
use w_llm.Runtime.{Runtime, Buffers}
use w_llm.Model.{Cache}
use w_llm.Model.Safe.{
  prefill_with_cache-Safe, decode_step_batch-Safe, reserve_each-Safe, advance_each-Safe,
  old_lens-Keeps,
}
use w_llm.GraphDecoder.{
  State, of_cache, forward_graph, add_scratch, setup_scratch, setup_scratch_sequences,
  scratch_write_idx, scratch_write_idxs, store_buffers, first_scratch, capture_one, capture_all,
  set_captured, capture, tables_fit, fits_captured_graphs, rows_plain, fit_rows, slot_indices,
  filled_buffers, bucket_for, buffers_of, replay, decode, scratch_seq_id_base,
}

states_of-Keeps : {T B : Type 0} {P : Manager T B → Type 0} (ids : List ℤ) → Keeps P (states_of ids)
unfolding states_of
states_of-Keeps [] = Keeps-pure []
states_of-Keeps (id ∷ ids) =
    Keeps-bind (state_of-Keeps id) λ s. Keeps-bind (states_of-Keeps ids) λ rest. Keeps-pure _

module _ (rt : Runtime) where
  open rt use {Logits}

  -- The cache that the decoder shares with the scheduler.
  abbrev pub SharedSafe : {A : Type 0} → Act (State rt) A → Type 0
  SharedSafe f = Keeps (λ (s : State rt). Safe s.1) f

  of_cache-Safe : {A : Type 0} {f : Act (Cache rt) A} → IsSafe f → SharedSafe (of_cache rt f)
  of_cache-Safe k = record { at = λ s h. k.at s.1 h }

  block_tables_tensor-Safe :
      (ids : List ℤ) → IsSafe {T = rt.Tensor} {B = rt.Copy} (block_tables_tensor ids)
  unfolding block_tables_tensor
  block_tables_tensor-Safe ids = Keeps-bind (states_of-Keeps ids) λ states. Keeps-pure _

  forward_graph-Safe : (b : Buffers) → SharedSafe (of_cache rt (forward_graph rt b))
  forward_graph-Safe b = record { at = λ s h. others-Safe s.1 _ _ _ _ h }

  -- The decoder's own fields.
  add_scratch-Safe : (id : ℤ) → SharedSafe (add_scratch rt id)
  add_scratch-Safe id = record { at = λ s h. h }

  store_buffers-Safe : (bucket : ℕ) (b : Buffers) → SharedSafe (store_buffers rt bucket b)
  store_buffers-Safe bucket b = record { at = λ s h. h }

  first_scratch-Safe : SharedSafe (first_scratch rt)
  first_scratch-Safe = record { at = λ s h. h }

  set_captured-Safe : SharedSafe (set_captured rt)
  set_captured-Safe = record { at = λ s h. h }

  bucket_for-Safe : (n : ℕ) → SharedSafe (bucket_for rt n)
  bucket_for-Safe n = record { at = λ s h. h }

  buffers_of-Safe : (n : ℕ) → SharedSafe (buffers_of rt n)
  buffers_of-Safe n = record { at = λ s h. h }

  setup_scratch-Safe : (i n : ℕ) → SharedSafe (setup_scratch rt i n)
  unfolding setup_scratch
  setup_scratch-Safe i zero = Keeps-pure tt
  setup_scratch-Safe i (suc n) =
      Keeps-bind
        (of_cache-Safe (prefill_with_cache-Safe rt (pos (scratch_seq_id_base + i)) (0 ∷ [])))
        λ _. Keeps-bind (add_scratch-Safe _) λ _. setup_scratch-Safe (i + 1) n

  first_block-Keeps :
      {P : Cache rt → Type 0} (k : ℕ) (table : List ℕ)
      → Keeps {A = ℕ} P (elim table [ [] ↦ raise index_error | b ∷ _ ↦ pure (b * k) ])
  first_block-Keeps k [] = Keeps-raise _
  first_block-Keeps k (b ∷ _) = Keeps-pure _

  scratch_write_idx-Safe : (id : ℤ) → IsSafe (scratch_write_idx rt id)
  unfolding scratch_write_idx
  scratch_write_idx-Safe id = record {
    at = λ m s.
        (Keeps-bind {P = Safe} (state_of-Keeps id)
            λ c. first_block-Keeps m.block_size c.block_table).at
          m s;
  }

  scratch_write_idxs-Safe : (ids : List ℤ) → IsSafe (scratch_write_idxs rt ids)
  unfolding scratch_write_idxs
  scratch_write_idxs-Safe [] = Keeps-pure []
  scratch_write_idxs-Safe (id ∷ ids) =
      Keeps-bind (scratch_write_idx-Safe id)
        λ i. Keeps-bind (scratch_write_idxs-Safe ids) λ rest. Keeps-pure _

  capture_one-Safe : (n : ℕ) → SharedSafe (capture_one rt n)
  unfolding capture_one
  capture_one-Safe n = record {
    at = λ s h.
        (Keeps-bind first_scratch-Safe λ id.
            Keeps-bind (of_cache-Safe (block_tables_tensor-Safe (replicate n id))) λ bt.
              Keeps-bind (Keeps-result (fit_rows s.0.max_blocks_per_seq bt)) λ table.
                Keeps-bind (of_cache-Safe (context_len-Safe id)) λ len.
                  Keeps-bind (of_cache-Safe (scratch_write_idx-Safe id)) λ idx.
                    let b : Buffers = record {
                      token_ids = replicate n 0;
                      position_ids = replicate n 0;
                      block_table = table;
                      context_len = replicate n len;
                      write_idx = replicate n idx;
                    } in
                    Keeps-bind (forward_graph-Safe b) λ _.
                      Keeps-bind (forward_graph-Safe b)
                        λ _. Keeps-bind (forward_graph-Safe b) λ _. store_buffers-Safe n b).at
          s h;
  }

  capture_all-Safe : (ns : List ℕ) → SharedSafe (capture_all rt ns)
  unfolding capture_all
  capture_all-Safe [] = Keeps-pure tt
  capture_all-Safe (n ∷ ns) = Keeps-bind (capture_one-Safe n) λ _. capture_all-Safe ns

  pub capture-Safe : SharedSafe (capture rt)
  unfolding capture setup_scratch_sequences
  capture-Safe = record {
    at = λ s h.
        (Keeps-bind (setup_scratch-Safe 0 (s.0.max_bucket - 1))
            λ _. Keeps-bind (capture_all-Safe s.0.bucket_sizes) λ _. set_captured-Safe).at
          s h;
  }

  tables_fit-Safe : (k : ℕ) (ids : List ℤ) → IsSafe (tables_fit rt k ids)
  unfolding tables_fit
  tables_fit-Safe k [] = Keeps-pure true
  tables_fit-Safe k (id ∷ ids) =
      Keeps-bind (state_of-Keeps id) λ s. Keeps-if _ _ _ (Keeps-pure false) (tables_fit-Safe k ids)

  fits_captured_graphs-Safe : (ids : List ℤ) → SharedSafe (fits_captured_graphs rt ids)
  unfolding fits_captured_graphs
  fits_captured_graphs-Safe ids = record {
    at = λ s h.
        (Keeps-if (ltb s.0.max_bucket (length ids)) _ _ (Keeps-pure false)
            (of_cache-Safe (tables_fit-Safe s.0.max_blocks_per_seq ids))).at
          s h;
  }

  replay-Safe : (ids : List ℤ) (tokens : List ℕ) → SharedSafe (replay rt ids tokens)
  unfolding replay
  replay-Safe ids tokens = record {
    at = λ s h.
        (Keeps-bind (bucket_for-Safe (length ids)) λ bucket.
            Keeps-bind (buffers_of-Safe bucket) λ buf.
              Keeps-bind (of_cache-Safe (old_lens-Keeps rt ids)) λ old.
                Keeps-bind (of_cache-Safe (reserve_each-Safe rt ids)) λ positions.
                  Keeps-bind
                    (of_cache-Safe
                      (old_lens-Keeps rt (take (bucket - length ids) s.0.scratch_seq_ids)))
                    λ pads.
                      Keeps-bind
                        (of_cache-Safe (
                          block_tables_tensor-Safe
                            (ids ++ take (bucket - length ids) s.0.scratch_seq_ids)))
                        λ tables.
                          Keeps-bind (Keeps-result (fit_rows s.0.max_blocks_per_seq tables))
                            λ table.
                              Keeps-bind
                                (of_cache-Safe (
                                  scratch_write_idxs-Safe
                                    (take (bucket - length ids) s.0.scratch_seq_ids)))
                                λ scratch.
                                  let b =
                                    filled_buffers rt tokens old pads table
                                      (slot_indices rt s.1.block_size positions) scratch in
                                  Keeps-bind (store_buffers-Safe bucket b) λ _.
                                    Keeps-bind (forward_graph-Safe b) λ logits.
                                      Keeps-bind (of_cache-Safe (advance_each-Safe rt ids))
                                        λ _. Keeps-pure (take (length ids) logits)).at
          s h;
  }

  pub decode-Safe : (ids : List ℤ) (tokens : List ℕ) → SharedSafe (decode rt ids tokens)
  unfolding decode
  decode-Safe ids tokens = record {
    at = λ s h.
        (Keeps-if s.0.captured _ _
            (Keeps-bind (fits_captured_graphs-Safe ids) λ fits.
              Keeps-if fits _ _ (replay-Safe ids tokens)
                (of_cache-Safe (decode_step_batch-Safe rt (rows_plain rt ids tokens))))
            (Keeps-raise _)).at
          s h;
  }
