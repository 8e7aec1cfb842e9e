-- ===== src/Scheduler/Safe/Decoding.antt =====
-- Decoding in src/wllm/engine/scheduler.py keeps the scheduler sound: drafts, the graph, the batch, and
-- the preemptions on a full pool.
use w_llm.Base.{
  map, ℕ, zero, suc, ◌-◌, Bool, true, false, not, Option, List, [], ◌∷◌, ◌++◌, length, ltb, min,
  inl, inr, Option-cases,
}
use w_llm.Base.Int.{ℤ, int_eq}
use w_llm.Base.Keeps.{Keeps-bind, Keeps-pure, Keeps-if, Keeps-result, Keeps-raise}
use w_llm.Base.Outcome.{Result, ok, err, out_of_memory, Result-cases}
use w_llm.Kv.Safe.Calls.{rollback-Safe}
use w_llm.Sequence.{last_token_id}
use w_llm.Runtime.{Runtime}
use w_llm.Model.{continue_prefill}
use w_llm.Model.Safe.{continue_prefill-Safe, decode_step_batch-Safe}
use w_llm.GraphDecoder.Safe.{decode-Safe}
use w_llm.Scheduler.{Seq, on_cache}
use w_llm.Scheduler.Decode.{
  accepted_tokens, keep_tokens, count_matched, last_token, accept_draft, handle_chunk,
  speculative_decode_one, rows_for, by_graph, eager_part, replay_part, graph_part, with_logits,
  attempt, append_all, decode_loop, decode_active, split_last,
}
use w_llm.Scheduler.Safe.{
  Written, Sound, KeepsSound, on_cache-Sound, seq_of-Sound, put_seq-Sound, sample_and_append-Sound,
  preempt-Sound,
}

module _ {rt : Runtime} (w : Written rt) where
  open rt use {Logits, guides, argmax_rows, logprob_at}

  last_token-Sound : (q : Seq rt) → KeepsSound w (last_token q)
  last_token-Sound q = record {
    at = λ s h. elim (Option-cases (last_token_id q)) [
      | inl e ↦ rw (e, last_token) h
      | inr (t, e) ↦ rw (e, last_token) h
    ];
  }

  accept_draft-Sound :
      (id : ℤ) (draft : List ℕ) (logits : Logits) → KeepsSound w (accept_draft id draft logits)
  unfolding accept_draft
  accept_draft-Sound id draft logits = Keeps-bind (seq_of-Sound w id) λ q.
      Keeps-bind (Keeps-result (accepted_tokens (argmax_rows logits) draft)) λ tokens.
        let kept = keep_tokens guides (logprob_at logits) 0 tokens q in
        let back = length draft - min kept.1 (count_matched (argmax_rows logits) draft) in
        Keeps-bind (put_seq-Sound w id kept.0) λ _.
          Keeps-if (ltb 0 back) _ _
            (Keeps-bind (on_cache-Sound w (rollback-Safe q.seq_id back)) λ _. Keeps-pure true)
            (Keeps-pure true)

  handle_chunk-Sound :
      (id : ℤ) (draft : List ℕ) (r : Result Logits) → KeepsSound w (handle_chunk id draft r)
  unfolding handle_chunk
  handle_chunk-Sound id draft (ok logits) = accept_draft-Sound id draft logits
  handle_chunk-Sound id draft (err out_of_memory) =
      Keeps-bind (preempt-Sound w id) λ _. Keeps-pure false
  handle_chunk-Sound id draft (err _) = Keeps-raise _

  pub speculative_decode_one-Sound :
      (id : ℤ) (draft : List ℕ) → KeepsSound w (speculative_decode_one id draft)
  unfolding speculative_decode_one
  speculative_decode_one-Sound id draft = Keeps-bind (seq_of-Sound w id) λ q.
      Keeps-bind (last_token-Sound q) λ t. record {
        at = λ s h.
            (handle_chunk-Sound id draft
                (on_cache (continue_prefill rt q.seq_id (t ∷ draft) q.lora_id) s).0).at
              _
              ((on_cache-Sound w (continue_prefill-Safe rt q.seq_id (t ∷ draft) q.lora_id)).at s h);
      }

  rows_for-Sound : (wanted : Option ℕ → Bool) (ids : List ℤ) → KeepsSound w (rows_for wanted ids)
  unfolding rows_for
  rows_for-Sound wanted [] = Keeps-pure []
  rows_for-Sound wanted (id ∷ ids) = Keeps-bind (seq_of-Sound w id) λ q.
      Keeps-bind (last_token-Sound q) λ t. Keeps-bind (rows_for-Sound wanted ids) λ rest.
        Keeps-if (wanted q.lora_id) _ _ (Keeps-pure ((q.seq_id, t, q.lora_id) ∷ rest))
          (Keeps-pure rest)

  eager_part-Sound : (rows : List (ℤ × ℕ × Option ℕ)) → KeepsSound w (eager_part rows)
  unfolding eager_part
  eager_part-Sound [] = Keeps-pure []
  eager_part-Sound (r ∷ rs) = on_cache-Sound w (decode_step_batch-Safe rt (r ∷ rs))

  replay_part-Sound : (ids : List ℤ) (tokens : List ℕ) → KeepsSound w (replay_part ids tokens)
  replay_part-Sound ids tokens = record {
    at = λ s h. elim (Option-cases s.graph_decoder) [
      | inl e ↦ rw (e, replay_part) h
      | inr (d, e) ↦
          rw (e, replay_part)
            (record {
              cache = (decode-Safe rt ids tokens).at (d, s.cache) h.cache;
              stored = h.stored;
            })
    ];
  }

  graph_part-Sound : (rows : List (ℤ × ℕ × Option ℕ)) → KeepsSound w (graph_part rows)
  unfolding graph_part
  graph_part-Sound [] = Keeps-pure []
  graph_part-Sound (r ∷ rs) = replay_part-Sound (map (λ x. x.0) (r ∷ rs)) (map (λ x. x.1) (r ∷ rs))

  attempt-Sound : (active : List ℤ) → KeepsSound w (attempt active)
  unfolding attempt
  attempt-Sound active = record {
    at = λ s h.
        (Keeps-bind (rows_for-Sound (by_graph s) active) λ graph_batch.
            Keeps-bind (rows_for-Sound (λ lora. not (by_graph s lora)) active) λ eager_batch.
              Keeps-bind (graph_part-Sound graph_batch) λ graph_logits.
                Keeps-bind (eager_part-Sound eager_batch) λ eager_logits.
                  Keeps-pure (
                    with_logits graph_batch graph_logits
                    ++ with_logits eager_batch eager_logits)).at
          s h;
  }

  append_all-Sound : (rows : List (ℤ × Logits)) → KeepsSound w (append_all rows)
  unfolding append_all
  append_all-Sound [] = Keeps-pure []
  append_all-Sound ((id, logits) ∷ rest) =
      Keeps-bind (sample_and_append-Sound w id logits)
        λ _. Keeps-bind (append_all-Sound rest) λ ids. Keeps-pure (id ∷ ids)

  decode_loop-Sound : (fuel : ℕ) (active : List ℤ) → KeepsSound w (decode_loop fuel active)
  unfolding decode_loop
  decode_loop-Sound fuel [] = record { at = λ s h. h }
  decode_loop-Sound zero (x ∷ xs) = record { at = λ s h. h }
  decode_loop-Sound (suc fuel) (x ∷ xs) = record {
    at = λ s h.
        let s' = (attempt (x ∷ xs) s).1 in
        let h' : Sound w s' = (attempt-Sound (x ∷ xs)).at s h in
        elim (Result-cases (attempt (x ∷ xs) s).0) [
          | inl (logits, run) ↦ rw (run, decode_loop) ((append_all-Sound logits).at s' h')
          | inr (out_of_memory, run) ↦
              rw (run, decode_loop)
                ((Keeps-bind (preempt-Sound w (split_last x xs).1)
                    λ _. decode_loop-Sound fuel (split_last x xs).0).at
                  s' h')
          | inr (_, run) ↦ rw (run, decode_loop) h'
        ];
  }

  pub decode_active-Sound : (active : List ℤ) → KeepsSound w (decode_active active)
  unfolding decode_active
  decode_active-Sound active = decode_loop-Sound (length active) active
