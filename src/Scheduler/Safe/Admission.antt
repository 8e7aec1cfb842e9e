-- ===== src/Scheduler/Safe/Admission.antt =====
-- Admission, prefill and swapping in of src/wllm/engine/scheduler.py keep the scheduler sound.
use w_llm.Base.{
  ℕ, ◌-◌, true, false, Option, none, some, List, [], ◌∷◌, ◌++◌, ltb, min, inl, inr, Option-cases,
}
use w_llm.Base.Int.{ℤ, int_eq}
use w_llm.Base.Dict.{get}
use w_llm.Base.Keeps.{Keeps-bind, Keeps-pure, Keeps-if, Keeps-after, if-Keeps}
use w_llm.Base.Outcome.{Act, ok, err, key_error, Result-cases, after, ◌>>=◌, ◌>>◌}
use w_llm.Kv.Safe.Calls.{context_len-Safe}
use w_llm.Kv.Safe.Shared.{match_prefix-AllHeld, register_prefix_blocks-Safe}
use w_llm.Kv.Safe.Swap.{swap_in-Safe}
use w_llm.Kv.Prefix.{match_prefix}
use w_llm.Kv.Swap.{blocks_for}
use w_llm.Sequence.{SeqStatus, num_prompt_tokens}
use w_llm.Runtime.{Runtime}
use w_llm.Model.{matched, create_matching}
use w_llm.Model.Safe.{
  continue_prefill-Safe, create_matching-Safe, prefill_with_cache_and_prefix_reuse-Safe,
}
use w_llm.Scheduler.{Scheduler, on_cache, fits}
use w_llm.Scheduler.Prefill.{
  push_running, set_waiting, set_swapped, needed_for, prefill, admit_from, admit,
  continue_prefill_chunk, continue_all, admit_chunks, with_status, prefill_by, step_prefill_work,
  swap_in_from, try_swap_in, if_done,
}
use w_llm.Scheduler.Safe.{
  Written, Sound, KeepsSound, on_cache-Sound, seq_of-Sound, set_status-Sound, queues-Sound,
  sample_and_append-Sound,
}

module _ {rt : Runtime} (w : Written rt) where
  open rt use {storage, hash}

  push_running-Sound : (id : ℤ) → KeepsSound w (push_running id)
  push_running-Sound id = record { at = λ s h. queues-Sound w s _ _ _ h }

  set_waiting-Sound : (ids : List ℤ) → KeepsSound w (set_waiting ids)
  set_waiting-Sound ids = record { at = λ s h. queues-Sound w s _ _ _ h }

  set_swapped-Sound : (ids : List ℤ) → KeepsSound w (set_swapped ids)
  set_swapped-Sound ids = record { at = λ s h. queues-Sound w s _ _ _ h }

  prefill-Sound : (id : ℤ) → KeepsSound w (prefill id)
  unfolding prefill
  prefill-Sound id = Keeps-bind (seq_of-Sound w id) λ q.
      Keeps-bind
        (on_cache-Sound w
          (prefill_with_cache_and_prefix_reuse-Safe rt q.seq_id q.prompt_token_ids q.lora_id))
        λ logits.
          Keeps-bind (set_status-Sound w id SeqStatus.running)
            λ _. sample_and_append-Sound w id logits

  admit_from-Sound : (ids : List ℤ) → KeepsSound w (admit_from ids)
  unfolding admit_from
  admit_from-Sound [] = record { at = λ s h. h }
  admit_from-Sound (id ∷ rest) = Keeps-bind (seq_of-Sound w id) λ q. record {
    at = λ s h.
        if-Keeps (Sound w) (fits (needed_for q s) s) _ (ok [], s)
          ((Keeps-bind (prefill-Sound id) λ _. Keeps-bind (push_running-Sound id) λ _.
              Keeps-bind (set_waiting-Sound rest)
                λ _. Keeps-bind (admit_from-Sound rest) λ admitted. Keeps-pure (id ∷ admitted)).at
            s h)
          h;
  }

  admit-Sound : KeepsSound w admit
  unfolding admit
  admit-Sound = record { at = λ s h. (admit_from-Sound s.waiting).at s h }

  continue_prefill_chunk-Sound :
      (id : ℤ) (budget : ℕ) → KeepsSound w (continue_prefill_chunk id budget)
  unfolding continue_prefill_chunk
  continue_prefill_chunk-Sound id budget = Keeps-bind (seq_of-Sound w id) λ q.
      Keeps-bind (on_cache-Sound w (context_len-Safe q.seq_id)) λ start.
        Keeps-bind (on_cache-Sound w (continue_prefill-Safe rt q.seq_id _ q.lora_id)) λ logits.
          Keeps-bind (on_cache-Sound w (context_len-Safe q.seq_id)) λ done.
            Keeps-if _ _ _ (Keeps-pure (budget - min budget (num_prompt_tokens q - start), false)) (
              Keeps-bind
                (on_cache-Sound w (register_prefix_blocks-Safe hash q.seq_id q.prompt_token_ids))
                λ _. Keeps-bind (set_status-Sound w id SeqStatus.running) λ _.
                  Keeps-bind (sample_and_append-Sound w id logits)
                    λ _. Keeps-pure (budget - min budget (num_prompt_tokens q - start), true))

  continue_all-Sound : (ids : List ℤ) (budget : ℕ) → KeepsSound w (continue_all ids budget)
  unfolding continue_all
  continue_all-Sound [] budget = record { at = λ s h. h }
  continue_all-Sound (id ∷ ids) budget = record {
    at = λ s h.
        if-Keeps (Sound w) (ltb 0 budget) _ (ok (budget, []), s)
          ((Keeps-bind (continue_prefill_chunk-Sound id budget) λ r.
              Keeps-bind (continue_all-Sound ids r.0)
                λ rest. Keeps-pure (rest.0, if_done r.1 id rest.1)).at
            s h)
          h;
  }

  -- A new sequence from what its prompt matches, and what follows.
  start_matching-Sound :
      {A : Type 0} (id : ℤ) (prompt : List ℕ) (f : List ℕ × ℕ → Act (Scheduler rt) A)
      → ((hit : List ℕ × ℕ) → KeepsSound w (f hit))
      → KeepsSound w
          (on_cache (matched rt prompt) >>= λ hit. on_cache (create_matching rt id hit.0) >> f hit)
  start_matching-Sound id prompt f rest = record {
    at = λ s h. elim (Result-cases (match_prefix hash prompt s.cache)) [
      | inr (e, fails) ↦ rw (fails, after) h
      | inl (hit, run) ↦
          rw (run, after)
            ((Keeps-after (create_matching rt id hit.0 s.cache).0 _ λ _ _. rest hit).at _ (record {
              cache =
                  create_matching-Safe rt id hit.0 s.cache h.cache
                    (match_prefix-AllHeld hash prompt s.cache h.cache hit run);
              stored = h.stored;
            }))
    ];
  }

  admit_chunks-Sound : (ids : List ℤ) (budget : ℕ) → KeepsSound w (admit_chunks ids budget)
  unfolding admit_chunks
  admit_chunks-Sound [] budget = record { at = λ s h. h }
  admit_chunks-Sound (id ∷ rest) budget = Keeps-bind (seq_of-Sound w id) λ q. record {
    at = λ s h.
        if-Keeps (Sound w) (ltb 0 budget) _ (ok [], s)
          (if-Keeps (Sound w) (fits (needed_for q s) s) _ (ok [], s)
            ((Keeps-bind (set_waiting-Sound rest) λ _. Keeps-bind (push_running-Sound id) λ _.
                Keeps-bind (set_status-Sound w id SeqStatus.prefilling) λ _.
                  start_matching-Sound q.seq_id q.prompt_token_ids _ λ hit.
                    Keeps-bind (continue_prefill_chunk-Sound id budget) λ r.
                      Keeps-bind (admit_chunks-Sound rest r.0)
                        λ completed. Keeps-pure (if_done r.1 id completed)).at
              s h)
            h)
          h;
  }

  admit_waiting-Sound : (budget : ℕ) → KeepsSound w (λ s. admit_chunks s.waiting budget s)
  admit_waiting-Sound budget = record { at = λ s h. (admit_chunks-Sound s.waiting budget).at s h }

  prefill_by-Sound : (budget : Option ℕ) → KeepsSound w (prefill_by budget)
  prefill_by-Sound none = record { at = λ s h. admit-Sound.at s h }
  prefill_by-Sound (some budget) = record {
    at = λ s h.
        (Keeps-bind (continue_all-Sound (with_status s SeqStatus.prefilling s.running) budget)
            λ r. Keeps-bind (admit_waiting-Sound r.0) λ admitted. Keeps-pure (r.1 ++ admitted)).at
          s h;
  }

  pub step_prefill_work-Sound : KeepsSound w step_prefill_work
  unfolding step_prefill_work
  step_prefill_work-Sound = record {
    at = λ s h. (prefill_by-Sound s.config.max_prefill_tokens_per_step).at s h;
  }

  saved_len-Sound :
      (id : ℤ)
      → KeepsSound w {A = ℕ} (λ s'. elim (get s'.cache.swapped_context_len id) [
        | none ↦ (err key_error, s')
        | some n ↦ (ok n, s')
      ])
  saved_len-Sound id = record {
    at = λ s h. elim (Option-cases (get s.cache.swapped_context_len id)) [
      | inl e ↦ rw e h
      | inr (n, e) ↦ rw e h
    ];
  }

  swap_in_from-Sound : (ids : List ℤ) → KeepsSound w (swap_in_from ids)
  unfolding swap_in_from
  swap_in_from-Sound [] = record { at = λ s h. h }
  swap_in_from-Sound (id ∷ rest) = Keeps-bind (seq_of-Sound w id) λ q.
      Keeps-bind (saved_len-Sound q.seq_id) λ n. record {
        at = λ s h.
            if-Keeps (Sound w) (fits (blocks_for s.cache.block_size n) s) _ (ok tt, s)
              ((Keeps-bind (set_swapped-Sound rest) λ _.
                  Keeps-bind (on_cache-Sound w (swap_in-Safe storage q.seq_id)) λ _.
                    Keeps-bind (set_status-Sound w id SeqStatus.running)
                      λ _. Keeps-bind (push_running-Sound id) λ _. swap_in_from-Sound rest).at
                s h)
              h;
      }

  pub try_swap_in-Sound : KeepsSound w try_swap_in
  unfolding try_swap_in
  try_swap_in-Sound = record { at = λ s h. (swap_in_from-Sound s.swapped).at s h }
