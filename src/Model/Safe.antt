-- ===== src/Model/Safe.antt =====
-- The forward passes of src/wllm/models/llama.py keep the cache safe on every path, errors included.
use w_llm.Base.{ℕ, Option, List, [], ◌∷◌, length, drop, inl, inr}
use w_llm.Base.Int.{ℤ, int_eq}
use w_llm.Base.Keeps.{Keeps, Keeps-bind, Keeps-pure, Keeps-after}
use w_llm.Base.Outcome.{Act, ok, err, index_error, after, Result-cases, ◌>>=◌, ◌>>◌}
use w_llm.Kv.Prefix.{match_prefix}
use w_llm.Kv.Safe.{Safe, IsSafe, others-Safe, state_of-Keeps}
use w_llm.Kv.Safe.Calls.{create_sequence-Safe, reserve-Safe, advance-Safe}
use w_llm.Kv.Safe.Shared.{
  AllHeld, create_sequence_from_prefix-Safe, match_prefix-AllHeld, register_prefix_blocks-Safe,
}
use w_llm.Runtime.{Runtime, Chunk, Row}
use w_llm.Model.{
  Cache, forward_chunk, forward_batch, continue_prefill, create_matching, matched,
  prefill_with_cache_and_prefix_reuse, prefill_with_cache, reserve_each, advance_each, old_lens,
  rows_of, ids_of, decode_step_batch,
}

module _ (rt : Runtime) where
  open rt use {Tensor, Copy, Logits, hash}

  -- The layers write tensors only.
  forward_chunk-Safe : (c : Chunk) → IsSafe (forward_chunk rt c)
  forward_chunk-Safe c = record { at = λ m s. others-Safe m _ _ _ _ s }

  forward_batch-Safe : (rows : List Row) → IsSafe (forward_batch rt rows)
  forward_batch-Safe rows = record { at = λ m s. others-Safe m _ _ _ _ s }

  pub continue_prefill-Safe :
      (id : ℤ) (chunk : List ℕ) (lora : Option ℕ) → IsSafe (continue_prefill rt id chunk lora)
  unfolding continue_prefill
  continue_prefill-Safe id chunk lora = Keeps-bind (state_of-Keeps id) λ s.
      Keeps-bind (reserve-Safe id (length chunk)) λ positions. Keeps-bind (state_of-Keeps id) λ s'.
        Keeps-bind (forward_chunk-Safe _)
          λ logits. Keeps-bind (advance-Safe id (length chunk)) λ _. Keeps-pure logits

  pub prefill_with_cache-Safe :
      (id : ℤ) (prompt : List ℕ) → IsSafe (prefill_with_cache rt id prompt)
  unfolding prefill_with_cache
  prefill_with_cache-Safe id prompt = Keeps-bind (create_sequence-Safe id) λ _.
      Keeps-bind (reserve-Safe id (length prompt)) λ positions.
        Keeps-bind (forward_chunk-Safe _)
          λ logits. Keeps-bind (advance-Safe id (length prompt)) λ _. Keeps-pure logits

  pub create_matching-Safe :
      (id : ℤ) (bs : List ℕ) (m : Cache rt) (s : Safe m)
      → AllHeld s.held bs
      → Safe (create_matching rt id bs m).1
  unfolding create_matching
  create_matching-Safe id [] m s held = (create_sequence-Safe id).at m s
  create_matching-Safe id (b ∷ bs) m s held = create_sequence_from_prefix-Safe m id (b ∷ bs) s held

  -- A new sequence from whatever its prompt matches, and the rest of the call.
  pub match_and_create-Safe :
      {A : Type 0} (id : ℤ) (prompt : List ℕ) (f : List ℕ × ℕ → Act (Cache rt) A)
      → ((hit : List ℕ × ℕ) → IsSafe (f hit))
      → IsSafe (matched rt prompt >>= λ hit. create_matching rt id hit.0 >> f hit)
  match_and_create-Safe id prompt f rest = record {
    at = λ m s. elim (Result-cases (match_prefix hash prompt m)) [
      | inr (e, fails) ↦ rw (fails, after) s
      | inl (hit, run) ↦
          rw (run, after)
            ((Keeps-after (create_matching rt id hit.0 m).0 _ λ _ _. rest hit).at _
              (create_matching-Safe id hit.0 m s (match_prefix-AllHeld hash prompt m s hit run)))
    ];
  }

  pub prefill_with_cache_and_prefix_reuse-Safe :
      (id : ℤ) (prompt : List ℕ) (lora : Option ℕ)
      → IsSafe (prefill_with_cache_and_prefix_reuse rt id prompt lora)
  unfolding prefill_with_cache_and_prefix_reuse
  prefill_with_cache_and_prefix_reuse-Safe id prompt lora = match_and_create-Safe id prompt _ λ hit.
      Keeps-bind (continue_prefill-Safe id (drop hit.1 prompt) lora)
        λ logits. Keeps-bind (register_prefix_blocks-Safe hash id prompt) λ _. Keeps-pure logits

  first_slot-Keeps :
      {P : Cache rt → Type 0} (ps : List (ℕ × ℕ))
      → Keeps {A = ℕ × ℕ} P (λ m. elim ps [ [] ↦ (err index_error, m) | p ∷ _ ↦ (ok p, m) ])
  first_slot-Keeps [] = record { at = λ m s. s }
  first_slot-Keeps (p ∷ ps) = record { at = λ m s. s }

  pub reserve_each-Safe : (ids : List ℤ) → IsSafe (reserve_each rt ids)
  unfolding reserve_each
  reserve_each-Safe [] = Keeps-pure []
  reserve_each-Safe (id ∷ ids) = Keeps-bind (reserve-Safe id 1) λ ps.
      Keeps-bind (first_slot-Keeps ps)
        λ p. Keeps-bind (reserve_each-Safe ids) λ rest. Keeps-pure (p ∷ rest)

  pub advance_each-Safe : (ids : List ℤ) → IsSafe (advance_each rt ids)
  unfolding advance_each
  advance_each-Safe [] = Keeps-pure tt
  advance_each-Safe (id ∷ ids) = Keeps-bind (advance-Safe id 1) λ _. advance_each-Safe ids

  pub old_lens-Keeps : {P : Cache rt → Type 0} (ids : List ℤ) → Keeps P (old_lens rt ids)
  unfolding old_lens
  old_lens-Keeps [] = Keeps-pure []
  old_lens-Keeps (id ∷ ids) =
      Keeps-bind (state_of-Keeps id) λ s. Keeps-bind (old_lens-Keeps ids) λ rest. Keeps-pure _

  rows_of-Keeps :
      {P : Cache rt → Type 0} (batch : List (ℤ × ℕ × Option ℕ)) (lens : List ℕ) (ps : List (ℕ × ℕ))
      → Keeps P (rows_of rt batch lens ps)
  unfolding rows_of
  rows_of-Keeps ((id, token, lora) ∷ batch) (n ∷ lens) (p ∷ ps) =
      Keeps-bind (state_of-Keeps id)
        λ s. Keeps-bind (rows_of-Keeps batch lens ps) λ rest. Keeps-pure _
  rows_of-Keeps [] lens ps = Keeps-pure []
  rows_of-Keeps (x ∷ batch) [] ps = Keeps-pure []
  rows_of-Keeps (x ∷ batch) (n ∷ lens) [] = Keeps-pure []

  pub decode_step_batch-Safe :
      (batch : List (ℤ × ℕ × Option ℕ)) → IsSafe (decode_step_batch rt batch)
  unfolding decode_step_batch
  decode_step_batch-Safe batch = Keeps-bind (old_lens-Keeps (ids_of rt batch)) λ lens.
      Keeps-bind (reserve_each-Safe (ids_of rt batch)) λ positions.
        Keeps-bind (rows_of-Keeps batch lens positions) λ rows.
          Keeps-bind (forward_batch-Safe rows)
            λ logits. Keeps-bind (advance_each-Safe (ids_of rt batch)) λ _. Keeps-pure logits
