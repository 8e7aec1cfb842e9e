-- ===== src/Scheduler/Prefill.antt =====
-- Admission and prefill in src/wllm/engine/scheduler.py, in one shot and by chunks.
use w_llm.Base.{
  ℕ, ◌-◌, Option, Bool, true, false, none, some, List, [], ◌∷◌, ◌++◌, take, drop, ltb, min,
  if◌then◌else◌,
}
use w_llm.Base.Int.{ℤ, int_eq}
use w_llm.Base.Dict.{get}
use w_llm.Base.Outcome.{Act, ok, err, key_error, ◌>>=◌, ◌>>◌, pure}
use w_llm.Kv.Prefix.{register_prefix_blocks}
use w_llm.Kv.Slots.{context_len}
use w_llm.Kv.Swap.{blocks_for, swap_in}
use w_llm.Sequence.{SeqStatus, status_eq, num_prompt_tokens, total_len_estimate}
use w_llm.Runtime.{Runtime}
use w_llm.Model.{continue_prefill, create_matching, matched, prefill_with_cache_and_prefix_reuse}
use w_llm.Scheduler.{Scheduler, Seq, on_cache, seq_of, set_status, fits, sample_and_append}

abbrev pub if_done : Bool → ℤ → List ℤ → List ℤ
if_done done id ids = if done then id ∷ ids else ids

module _ {rt : Runtime} where
  open rt use {storage, hash}

  abbrev pub push_running : ℤ → Act (Scheduler rt) (Unit {0})
  push_running id s = (ok tt, record s { running = s.running ++ id ∷ [] })

  abbrev pub set_waiting : List ℤ → Act (Scheduler rt) (Unit {0})
  set_waiting ids s = (ok tt, record s { waiting = ids })

  abbrev pub set_swapped : List ℤ → Act (Scheduler rt) (Unit {0})
  set_swapped ids s = (ok tt, record s { swapped = ids })

  abbrev pub needed_for : Seq rt → Scheduler rt → ℕ
  needed_for q s = blocks_for s.cache.block_size (total_len_estimate q)

  unfoldable pub prefill : ℤ → Act (Scheduler rt) (Unit {0})
  prefill id = do
    q ← seq_of id
    logits ← on_cache (prefill_with_cache_and_prefix_reuse rt q.seq_id q.prompt_token_ids q.lora_id)
    set_status id SeqStatus.running
    sample_and_append id logits

  -- The loop of _admit; its list is `self.waiting`, whose head is served or ends the loop.
  unfoldable pub admit_from : List ℤ → Act (Scheduler rt) (List ℤ)
  admit_from [] s = (ok [], s)
  admit_from (id ∷ rest) s =
      (do
        q ← seq_of id
        λ s'.
            let go =
              (do
                prefill id
                push_running id
                set_waiting rest
                admitted ← admit_from rest
                pure (id ∷ admitted))
                s' in
            if fits (needed_for q s') s' then go else (ok [], s'))
        s

  unfoldable pub admit : Act (Scheduler rt) (List ℤ)
  unfolding admit_from
  admit s = admit_from s.waiting s

  -- One more chunk of a prompt: what is left of the budget, and whether the prompt is done.
  unfoldable pub continue_prefill_chunk : ℤ → ℕ → Act (Scheduler rt) (ℕ × Bool)
  continue_prefill_chunk id budget = do
    q ← seq_of id
    start ← on_cache (context_len q.seq_id)
    let chunk_len = min budget (num_prompt_tokens q - start)
    logits ←
        on_cache
          (continue_prefill rt q.seq_id (take chunk_len (drop start q.prompt_token_ids)) q.lora_id)
    done ← on_cache (context_len q.seq_id)
    if ltb done (num_prompt_tokens q) then pure (budget - chunk_len, false) else do
      on_cache (register_prefix_blocks hash q.seq_id q.prompt_token_ids)
      set_status id SeqStatus.running
      sample_and_append id logits
      pure (budget - chunk_len, true)

  -- The sequences that are mid-way through their prompt, while there is budget.
  unfoldable pub continue_all : List ℤ → ℕ → Act (Scheduler rt) (ℕ × List ℤ)
  continue_all [] budget s = (ok (budget, []), s)
  continue_all (id ∷ ids) budget s =
      let go =
        (do
          r ← continue_prefill_chunk id budget
          rest ← continue_all ids r.0
          pure (rest.0, if_done r.1 id rest.1))
          s in
      if ltb 0 budget then go else (ok (budget, []), s)

  -- New sequences into what budget remains.
  unfoldable pub admit_chunks : List ℤ → ℕ → Act (Scheduler rt) (List ℤ)
  admit_chunks [] budget s = (ok [], s)
  admit_chunks (id ∷ rest) budget s =
      (do
        q ← seq_of id
        λ s'.
            let go =
              (do
                set_waiting rest
                push_running id
                set_status id SeqStatus.prefilling
                hit ← on_cache (matched rt q.prompt_token_ids)
                on_cache (create_matching rt q.seq_id hit.0)
                r ← continue_prefill_chunk id budget
                completed ← admit_chunks rest r.0
                pure (if_done r.1 id completed))
                s' in
            if ltb 0 budget
            then (if fits (needed_for q s') s' then go else (ok [], s'))
            else (ok [], s'))
        s

  abbrev has_status : Scheduler rt → SeqStatus → ℤ → Bool
  has_status s st id = elim (get s.store id) [ none ↦ false | some q ↦ status_eq q.status st ]

  -- [x for x in ids if x.status == st]
  unfoldable pub with_status : Scheduler rt → SeqStatus → List ℤ → List ℤ
  with_status s st [] = []
  with_status s st (id ∷ ids) =
      let rest = with_status s st ids in if has_status s st id then id ∷ rest else rest

  -- _step_prefill_work, without a budget and with one.
  abbrev pub prefill_by : Option ℕ → Act (Scheduler rt) (List ℤ)
  prefill_by none s = admit s
  prefill_by (some budget) s =
      (do
        r ← continue_all (with_status s SeqStatus.prefilling s.running) budget
        admitted ← (λ s'. admit_chunks s'.waiting r.0 s')
        pure (r.1 ++ admitted))
        s

  unfoldable pub step_prefill_work : Act (Scheduler rt) (List ℤ)
  unfolding admit continue_all admit_chunks with_status
  step_prefill_work s = prefill_by s.config.max_prefill_tokens_per_step s

  -- The loop of _try_swap_in, over `self.swapped`.
  unfoldable pub swap_in_from : List ℤ → Act (Scheduler rt) (Unit {0})
  swap_in_from [] s = (ok tt, s)
  swap_in_from (id ∷ rest) s =
      (do
        q ← seq_of id
        n ← (λ s'. elim (get s'.cache.swapped_context_len q.seq_id) [
          | none ↦ (err key_error, s')
          | some n ↦ (ok n, s')
        ])
        λ s'.
            let go =
              (do
                set_swapped rest
                on_cache (swap_in storage q.seq_id)
                set_status id SeqStatus.running
                push_running id
                swap_in_from rest)
                s' in
            if fits (blocks_for s'.cache.block_size n) s' then go else (ok tt, s'))
        s

  unfoldable pub try_swap_in : Act (Scheduler rt) (Unit {0})
  unfolding swap_in_from
  try_swap_in s = swap_in_from s.swapped s
