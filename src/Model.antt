-- ===== src/Model.antt =====
-- The forward passes of src/wllm/models/llama.py as far as they use the KV cache. The arithmetic of the
-- layers is a parameter.
pub mod Prefill
pub mod Safe
pub mod Layered
use w_llm.Base.{ℕ, ◌+◌, Option, none, List, [], ◌∷◌, length, drop, if◌then◌else◌, ltb}
use w_llm.Base.Int.{ℤ}
use w_llm.Base.Outcome.{Act, ok, err, index_error, ◌>>=◌, ◌>>◌, pure}
use w_llm.Kv.Manager.{Manager, state_of, create_sequence, create_sequence_from_prefix}
use w_llm.Kv.Prefix.{match_prefix, register_prefix_blocks}
use w_llm.Kv.Slots.{reserve, advance}
use w_llm.Runtime.{Runtime, Chunk, Row}

module _ (rt : Runtime) where
  open rt use {Tensor, Copy, Logits, hash, run_chunk, run_batch}

  abbrev pub Cache : Type 0
  Cache = Manager Tensor Copy

  -- The layers, on the tensors of the cache.
  abbrev pub forward_chunk : Chunk → Act Cache Logits
  forward_chunk c m =
      let (ks, vs, logits) = run_chunk m.k_caches m.v_caches c in
      (ok logits, record m { k_caches = ks; v_caches = vs })

  abbrev pub forward_batch : List Row → Act Cache (List Logits)
  forward_batch rows m =
      let (ks, vs, logits) = run_batch m.k_caches m.v_caches rows in
      (ok logits, record m { k_caches = ks; v_caches = vs })

  -- The prefix is the block table itself, read after `reserve` has lengthened it.
  unfoldable pub continue_prefill : ℤ → List ℕ → Option ℕ → Act Cache Logits
  continue_prefill id chunk lora = do
    s ← state_of id
    positions ← reserve id (length chunk)
    s' ← state_of id
    logits ← forward_chunk (record {
      tokens = chunk;
      start = s.context_len;
      prefix_blocks = if ltb 0 s.context_len then s'.block_table else [];
      positions = positions;
      lora = lora;
    })
    advance id (length chunk)
    pure logits

  -- Starts a sequence from the blocks that match, if any do.
  unfoldable pub create_matching : ℤ → List ℕ → Act Cache (Unit {0})
  create_matching id [] = create_sequence id
  create_matching id (b ∷ bs) = create_sequence_from_prefix id (b ∷ bs)

  abbrev pub matched : List ℕ → Act Cache (List ℕ × ℕ)
  matched tokens m = (match_prefix hash tokens m, m)

  unfoldable pub prefill_with_cache_and_prefix_reuse : ℤ → List ℕ → Option ℕ → Act Cache Logits
  unfolding create_matching
  prefill_with_cache_and_prefix_reuse id prompt lora = do
    hit ← matched prompt
    create_matching id hit.0
    logits ← continue_prefill id (drop hit.1 prompt) lora
    register_prefix_blocks hash id prompt
    pure logits

  unfoldable pub prefill_with_cache : ℤ → List ℕ → Act Cache Logits
  prefill_with_cache id prompt = do
    create_sequence id
    positions ← reserve id (length prompt)
    logits ← forward_chunk (record {
      tokens = prompt;
      start = 0;
      prefix_blocks = [];
      positions = positions;
      lora = none;
    })
    advance id (length prompt)
    pure logits

  -- positions = [cache.reserve(s, 1)[0] for s in seq_ids]
  unfoldable pub reserve_each : List ℤ → Act Cache (List (ℕ × ℕ))
  reserve_each [] = pure []
  reserve_each (id ∷ ids) = do
    ps ← reserve id 1
    p ← (λ m. elim ps [ [] ↦ (err index_error, m) | p ∷ _ ↦ (ok p, m) ])
    rest ← reserve_each ids
    pure (p ∷ rest)

  unfoldable pub advance_each : List ℤ → Act Cache (Unit {0})
  advance_each [] = pure tt
  advance_each (id ∷ ids) = do advance id 1; advance_each ids

  unfoldable pub old_lens : List ℤ → Act Cache (List ℕ)
  old_lens [] = pure []
  old_lens (id ∷ ids) = do s ← state_of id; rest ← old_lens ids; pure (s.context_len ∷ rest)

  -- The rows, with each block table as it stands after the reservations.
  unfoldable pub rows_of : List (ℤ × ℕ × Option ℕ) → List ℕ → List (ℕ × ℕ) → Act Cache (List Row)
  rows_of ((id, token, lora) ∷ batch) (n ∷ lens) (p ∷ ps) = do
    s ← state_of id
    rest ← rows_of batch lens ps
    pure (
        record {
          token = token;
          position = n;
          slot = p;
          block_table = s.block_table;
          context_len = n + 1;
          lora = lora;
        }
        ∷ rest)
  rows_of batch lens ps = pure []

  abbrev pub ids_of : List (ℤ × ℕ × Option ℕ) → List ℤ
  ids_of [] = []
  ids_of ((id, _, _) ∷ batch) = id ∷ ids_of batch

  -- Each sequence with its last token and its adapter takes one step.
  unfoldable pub decode_step_batch : List (ℤ × ℕ × Option ℕ) → Act Cache (List Logits)
  unfolding reserve_each advance_each old_lens rows_of
  decode_step_batch batch = do
    lens ← old_lens (ids_of batch)
    positions ← reserve_each (ids_of batch)
    rows ← rows_of batch lens positions
    logits ← forward_batch rows
    advance_each (ids_of batch)
    pure logits
