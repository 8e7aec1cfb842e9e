-- ===== src/GraphDecoder.antt =====
-- CUDAGraphDecoder of src/wllm/engine/cuda_graph_decoder.py. Capturing and replaying a graph runs
-- decode_step_graphable, whose arithmetic is a parameter; the graph itself and the streams are not
-- part of the model.
pub mod Bucket
pub mod Safe
use w_llm.Base.{
  ℕ, zero, suc, ◌+◌, ◌-◌, ◌*◌, ◌^◌, Bool, true, false, Option, none, some, List, [], ◌∷◌, ◌++◌, map,
  length, take, replicate, leb, ltb, if◌then◌else◌, nat_eq,
}
use w_llm.Base.Int.{ℤ, pos}
use w_llm.Base.Dict.{Dict, get, put}
use w_llm.Base.Outcome.{
  Act, Result, ok, err, index_error, key_error, value_error, runtime_error, shape_mismatch, ◌>>=◌,
  ◌>>◌, pure, raise,
}
use w_llm.Kv.Manager.{state_of}
use w_llm.Kv.Slots.{context_len, block_tables_tensor}
use w_llm.Runtime.{Runtime, Buffers}
use w_llm.Model.{Cache, prefill_with_cache, decode_step_batch, old_lens, reserve_each, advance_each}

-- Far outside any real id.
abbrev pub scratch_seq_id_base : ℕ
scratch_seq_id_base = 2 ^ 31

-- sorted(bucket_sizes)
unfoldable pub insert : ℕ → List ℕ → List ℕ
insert n [] = n ∷ []
insert n (m ∷ ms) = let rest = insert n ms in if leb n m then n ∷ m ∷ ms else m ∷ rest

unfoldable pub sort : List ℕ → List ℕ
unfolding insert
sort [] = []
sort (n ∷ ns) = insert n (sort ns)

unfoldable pub last_bucket : List ℕ → Option ℕ
last_bucket [] = none
last_bucket (n ∷ []) = some n
last_bucket (n ∷ m ∷ ms) = last_bucket (m ∷ ms)

-- next(b for b in self.bucket_sizes if b >= n)
unfoldable pub first_bucket : List ℕ → ℕ → Option ℕ
first_bucket [] n = none
first_bucket (b ∷ bs) n = let rest = first_bucket bs n in if leb n b then some b else rest

-- `graphs` holds the static buffers of each captured bucket.
pub record GraphDecoder : Type 0 where
  pub bucket_sizes : List ℕ
  pub max_bucket : ℕ
  pub max_blocks_per_seq : ℕ
  pub graphs : Dict ℕ Buffers
  pub scratch_seq_ids : List ℤ
  pub captured : Bool

-- `is_cuda` is whether the device is a CUDA device; no bucket at all raises at [-1].
unfoldable pub new_decoder : Bool → List ℕ → ℕ → Result GraphDecoder
unfolding sort last_bucket
new_decoder false bucket_sizes max_blocks_per_seq = err value_error
new_decoder true bucket_sizes max_blocks_per_seq = elim (last_bucket (sort bucket_sizes)) [
  | none ↦ err index_error
  | some top ↦ ok (record {
    bucket_sizes = sort bucket_sizes;
    max_bucket = top;
    max_blocks_per_seq = max_blocks_per_seq;
    graphs = [];
    scratch_seq_ids = [];
    captured = false;
  })
]

-- buf[:, :w].copy_(rows) and buf[:, w:].zero_(), for a buffer of `width` columns.
unfoldable pub fit_rows : ℕ → List (List ℕ) → Result (List (List ℕ))
fit_rows width [] = ok []
fit_rows width (row ∷ rows) =
    if ltb width (length row) then err shape_mismatch else (elim (fit_rows width rows) [
      | err e ↦ err e
      | ok rest ↦ ok ((row ++ replicate (width - length row) 0) ∷ rest)
    ])

module _ (rt : Runtime) where
  open rt use {Logits, run_graph}

  -- The decoder and the cache that it shares with the scheduler.
  abbrev pub State : Type 0
  State = GraphDecoder × Cache rt

  abbrev pub of_cache : {A : Type 0} → Act (Cache rt) A → Act State A
  of_cache f (d, m) = ((f m).0, (d, (f m).1))

  abbrev pub of_result : {A : Type 0} → Result A → Act State A
  of_result r s = (r, s)

  -- The layers on the tensors of the cache, by the static buffers.
  abbrev pub forward_graph : Buffers → Act (Cache rt) (List Logits)
  forward_graph b m =
      let (ks, vs, logits) = run_graph m.k_caches m.v_caches b in
      (ok logits, record m { k_caches = ks; v_caches = vs })

  abbrev pub add_scratch : ℤ → Act State (Unit {0})
  add_scratch id (d, m) = (ok tt, (record d { scratch_seq_ids = d.scratch_seq_ids ++ id ∷ [] }, m))

  -- The loop of _setup_scratch_sequences over i, for `n` ids from `i` on.
  unfoldable pub setup_scratch : ℕ → ℕ → Act State (Unit {0})
  setup_scratch i zero = pure tt
  setup_scratch i (suc n) = do
    logits ← of_cache (prefill_with_cache rt (pos (scratch_seq_id_base + i)) (0 ∷ []))
    add_scratch (pos (scratch_seq_id_base + i))
    setup_scratch (i + 1) n

  unfoldable pub setup_scratch_sequences : Act State (Unit {0})
  unfolding setup_scratch
  setup_scratch_sequences (d, m) = setup_scratch 0 (d.max_bucket - 1) (d, m)

  unfoldable pub scratch_write_idx : ℤ → Act (Cache rt) ℕ
  scratch_write_idx id m =
      (do
        s ← state_of id
        elim s.block_table [ [] ↦ raise index_error | b ∷ _ ↦ pure (b * m.block_size) ])
        m

  unfoldable pub scratch_write_idxs : List ℤ → Act (Cache rt) (List ℕ)
  unfolding scratch_write_idx
  scratch_write_idxs [] = pure []
  scratch_write_idxs (id ∷ ids) = do
    i ← scratch_write_idx id
    rest ← scratch_write_idxs ids
    pure (i ∷ rest)

  abbrev pub store_buffers : ℕ → Buffers → Act State (Unit {0})
  store_buffers bucket b (d, m) = (ok tt, (record d { graphs = put d.graphs bucket b }, m))

  -- self.scratch_seq_ids[0]
  abbrev pub first_scratch : Act State ℤ
  first_scratch (d, m) = (elim d.scratch_seq_ids [ [] ↦ err index_error | id ∷ _ ↦ ok id ], (d, m))

  -- Three warm-up runs; the capture that follows records the launches and runs nothing.
  unfoldable pub capture_one : ℕ → Act State (Unit {0})
  unfolding fit_rows scratch_write_idx
  capture_one batch_size (d, m) =
      (do
        scratch_id ← first_scratch
        bt ← of_cache (block_tables_tensor (replicate batch_size scratch_id))
        table ← of_result (fit_rows d.max_blocks_per_seq bt)
        len ← of_cache (context_len scratch_id)
        idx ← of_cache (scratch_write_idx scratch_id)
        let b : Buffers = record {
          token_ids = replicate batch_size 0;
          position_ids = replicate batch_size 0;
          block_table = table;
          context_len = replicate batch_size len;
          write_idx = replicate batch_size idx;
        }
        first ← of_cache (forward_graph b)
        second ← of_cache (forward_graph b)
        third ← of_cache (forward_graph b)
        store_buffers batch_size b)
        (d, m)

  unfoldable pub capture_all : List ℕ → Act State (Unit {0})
  unfolding capture_one
  capture_all [] = pure tt
  capture_all (bucket ∷ buckets) = do capture_one bucket; capture_all buckets

  abbrev pub set_captured : Act State (Unit {0})
  set_captured (d, m) = (ok tt, (record d { captured = true }, m))

  unfoldable pub capture : Act State (Unit {0})
  unfolding setup_scratch_sequences capture_all
  capture (d, m) = (do setup_scratch_sequences; capture_all d.bucket_sizes; set_captured) (d, m)

  -- The loop of _fits_captured_graphs: a step may allocate one more block.
  unfoldable pub tables_fit : ℕ → List ℤ → Act (Cache rt) Bool
  tables_fit max_blocks [] = pure true
  tables_fit max_blocks (id ∷ ids) = do
    s ← state_of id
    if ltb max_blocks (length s.block_table + 1) then pure false else tables_fit max_blocks ids

  unfoldable pub fits_captured_graphs : List ℤ → Act State Bool
  unfolding tables_fit
  fits_captured_graphs ids (d, m) =
      (if ltb d.max_bucket (length ids)
          then pure false
          else of_cache (tables_fit d.max_blocks_per_seq ids))
        (d, m)

  -- The rows of the eager step: these sequences carry no adapter.
  abbrev pub rows_plain : List ℤ → List ℕ → List (ℤ × ℕ × Option ℕ)
  rows_plain (id ∷ ids) (t ∷ ts) = (id, t, none) ∷ rows_plain ids ts
  rows_plain ids ts = []

  -- The captured bucket for n sequences and its buffers.
  abbrev pub bucket_for : ℕ → Act State ℕ
  bucket_for n (d, m) =
      (elim (first_bucket d.bucket_sizes n) [ none ↦ err value_error | some b ↦ ok b ], (d, m))

  abbrev pub buffers_of : ℕ → Act State Buffers
  buffers_of bucket (d, m) =
      (elim (get d.graphs bucket) [ none ↦ err key_error | some b ↦ ok b ], (d, m))

  -- The write index of each slot.
  abbrev pub slot_indices : ℕ → List (ℕ × ℕ) → List ℕ
  slot_indices block_size = map (λ p. p.0 * block_size + p.1)

  -- What the replay runs on: the sequences of the batch, then scratch sequences up to the bucket.
  abbrev pub filled_buffers : List ℕ → List ℕ → List ℕ → List (List ℕ) → List ℕ → List ℕ → Buffers
  filled_buffers tokens old pads table slots scratch = record {
    token_ids = tokens ++ replicate (length scratch) 0;
    position_ids = old ++ pads;
    block_table = table;
    context_len = map (λ n. n + 1) old ++ pads;
    write_idx = slots ++ scratch;
  }

  abbrev pub context_lens : List ℤ → Act (Cache rt) (List ℕ)
  context_lens ids = old_lens rt ids

  -- Padding the batch to its bucket and replaying the graph.
  unfoldable pub replay : List ℤ → List ℕ → Act State (List Logits)
  unfolding first_bucket fit_rows scratch_write_idxs
  replay ids tokens (d, m) =
      (do
        bucket ← bucket_for (length ids)
        buf ← buffers_of bucket
        let pad_ids = take (bucket - length ids) d.scratch_seq_ids
        old ← of_cache (context_lens ids)
        positions ← of_cache (reserve_each rt ids)
        pads ← of_cache (context_lens pad_ids)
        tables ← of_cache (block_tables_tensor (ids ++ pad_ids))
        table ← of_result (fit_rows d.max_blocks_per_seq tables)
        scratch ← of_cache (scratch_write_idxs pad_ids)
        let b = filled_buffers tokens old pads table (slot_indices m.block_size positions) scratch
        store_buffers bucket b
        logits ← of_cache (forward_graph b)
        of_cache (advance_each rt ids)
        pure (take (length ids) logits))
        (d, m)

  unfoldable pub decode : List ℤ → List ℕ → Act State (List Logits)
  unfolding fits_captured_graphs replay
  decode ids tokens (d, m) =
      (if d.captured
          then (do
            fits ← fits_captured_graphs ids
            if fits
                then replay ids tokens
                else of_cache (decode_step_batch rt (rows_plain ids tokens)))
          else raise runtime_error)
        (d, m)
