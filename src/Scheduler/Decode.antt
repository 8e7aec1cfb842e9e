-- ===== src/Scheduler/Decode.antt =====
-- Decoding in src/wllm/engine/scheduler.py: speculative verification, and the batched step with its
-- preemption loop. The graph decoder's step (src/wllm/engine/cuda_graph_decoder.py) makes the same
-- reservations and advances as the eager one, without adapters, and is modelled by it.
pub mod Verify
pub mod Accept
use w_llm.Base.{
  map, ℕ, zero, suc, ◌+◌, ◌-◌, Bool, true, false, ◌&&◌, ◌||◌, not, Option, none, some, List, [],
  ◌∷◌, ◌++◌, length, take, get_elem?, ltb, min, ◌==◌, if◌then◌else◌,
}
use w_llm.Base.Int.{ℤ, int_eq}
use w_llm.Base.Dict.{get}
use w_llm.Base.Outcome.{Act, Result, ok, err, Error, out_of_memory, index_error, ◌>>=◌, ◌>>◌, pure}
use w_llm.Kv.Slots.{rollback}
use w_llm.Sequence.{Sequence, SeqStatus, Guides, last_token_id, is_finished, append_token}
use w_llm.Speculative.{propose_ngram_draft}
use w_llm.Runtime.{Runtime}
use w_llm.Model.{continue_prefill, decode_step_batch}
use w_llm.GraphDecoder.{decode}
use w_llm.Scheduler.{Scheduler, Seq, on_cache, seq_of, put_seq, preempt, sample_and_append}

-- How many draft tokens were predicted, in a row from the first.
unfoldable pub count_matched : List ℕ → List ℕ → ℕ
count_matched (p ∷ ps) (d ∷ ds) = let rest = count_matched ps ds in if p == d then suc rest else 0
count_matched ps ds = 0

-- The matched draft, and the prediction behind it.
unfoldable pub accepted_tokens : List ℕ → List ℕ → Result (List ℕ)
unfolding count_matched
accepted_tokens predicted draft =
    let matched = count_matched predicted draft in
    elim (get_elem? predicted matched) [
      | none ↦ err index_error
      | some final ↦ ok (take matched draft ++ final ∷ [])
    ]

-- The accepted tokens, one by one until one ends the sequence; the number kept. `logprob j t` is
-- the log-probability of token `t` at row `j`.
unfoldable pub keep_tokens :
    {F G : Type 0} → Guides G → (ℕ → ℕ → F) → ℕ → List ℕ → Sequence F G → Sequence F G × ℕ
keep_tokens gs logprob j [] q = (q, 0)
keep_tokens gs logprob j (t ∷ ts) q =
    let q' = append_token gs q t (logprob j t) in
    let rest = keep_tokens gs logprob (j + 1) ts q' in
    if is_finished q' then (q', 1) else (rest.0, suc rest.1)

-- active.pop()
unfoldable pub split_last : ℤ → List ℤ → List ℤ × ℤ
split_last x [] = ([], x)
split_last x (y ∷ ys) = let r = split_last y ys in (x ∷ r.0, r.1)

-- zip of a batch with its logits.
unfoldable pub with_logits : {L : Type 0} → List (ℤ × ℕ × Option ℕ) → List L → List (ℤ × L)
with_logits [] ls = []
with_logits (r ∷ rs) [] = []
with_logits (r ∷ rs) (l ∷ ls) = (r.0, l) ∷ with_logits rs ls

module _ {rt : Runtime} where
  open rt use {Float, Logits, floats, guides, argmax_rows, logprob_at}

  -- A draft only where verifying it is exact: greedy, no repetition penalty, no guide.
  unfoldable pub maybe_propose_draft : Scheduler rt → Seq rt → Option (List ℕ)
  maybe_propose_draft s q =
      if not (floats.eq_f q.sampling_params.temperature floats.zero_f)
        || not (floats.eq_f q.sampling_params.repetition_penalty floats.one_f)
      then none
      else (elim q.guide [
        | some _ ↦ none
        | none ↦
            propose_ngram_draft (q.prompt_token_ids ++ q.output_token_ids)
              s.config.speculative_ngram_size s.config.speculative_max_draft_len
      ])

  abbrev pub last_token : Seq rt → Act (Scheduler rt) ℕ
  last_token q s = elim (last_token_id q) [ none ↦ (err index_error, s) | some t ↦ (ok t, s) ]

  abbrev pub of_result : {A : Type 0} → Result A → Act (Scheduler rt) A
  of_result r s = (r, s)

  -- What follows a verification that had room: the tokens kept, and the rest rolled back.
  unfoldable pub accept_draft : ℤ → List ℕ → Logits → Act (Scheduler rt) Bool
  unfolding accepted_tokens keep_tokens
  accept_draft id draft logits = do
    q ← seq_of id
    tokens ← of_result (accepted_tokens (argmax_rows logits) draft)
    let kept = keep_tokens guides (logprob_at logits) 0 tokens q
    put_seq id kept.0
    let back = length draft - min kept.1 (count_matched (argmax_rows logits) draft)
    if ltb 0 back then (do on_cache (rollback q.seq_id back); pure true) else pure true

  -- except RuntimeError: a full pool preempts the sequence, anything else goes on up.
  unfoldable pub handle_chunk : ℤ → List ℕ → Result Logits → Act (Scheduler rt) Bool
  unfolding accept_draft
  handle_chunk id draft (ok logits) = accept_draft id draft logits
  handle_chunk id draft (err out_of_memory) = do preempt id; pure false
  handle_chunk id draft (err e) = λ s. (err e, s)

  unfoldable pub speculative_decode_one : ℤ → List ℕ → Act (Scheduler rt) Bool
  unfolding handle_chunk
  speculative_decode_one id draft s =
      (do
        q ← seq_of id
        t ← last_token q
        λ s'.
            let r = on_cache (continue_prefill rt q.seq_id (t ∷ draft) q.lora_id) s' in
            handle_chunk id draft r.0 r.1)
        s

  -- The sequences of a batch, as rows for the model; a graph decoder gets those with no adapter.
  unfoldable pub rows_for :
      (Option ℕ → Bool) → List ℤ → Act (Scheduler rt) (List (ℤ × ℕ × Option ℕ))
  rows_for wanted [] = pure []
  rows_for wanted (id ∷ ids) = do
    q ← seq_of id
    t ← last_token q
    rest ← rows_for wanted ids
    if wanted q.lora_id then pure ((q.seq_id, t, q.lora_id) ∷ rest) else pure rest

  abbrev pub by_graph : Scheduler rt → Option ℕ → Bool
  by_graph s lora =
      (elim s.graph_decoder [ none ↦ false | some _ ↦ true ])
      && (elim lora [ none ↦ true | some _ ↦ false ])

  -- The two sub-batches, each skipped when empty. The graph decoder works on the scheduler's cache.
  unfoldable pub eager_part : List (ℤ × ℕ × Option ℕ) → Act (Scheduler rt) (List Logits)
  eager_part [] = pure []
  eager_part (r ∷ rs) = on_cache (decode_step_batch rt (r ∷ rs))

  abbrev pub replay_part : List ℤ → List ℕ → Act (Scheduler rt) (List Logits)
  replay_part ids tokens s = elim s.graph_decoder [
    | none ↦ (ok [], s)
    | some d ↦
        let r = decode rt ids tokens (d, s.cache) in
        (r.0, record s { graph_decoder = some r.1.0; cache = r.1.1 })
  ]

  unfoldable pub graph_part : List (ℤ × ℕ × Option ℕ) → Act (Scheduler rt) (List Logits)
  graph_part [] = pure []
  graph_part (r ∷ rs) = replay_part (map (λ x. x.0) (r ∷ rs)) (map (λ x. x.1) (r ∷ rs))

  -- The body of the `try`: graph rows, then eager rows, with the logits in that order.
  unfoldable pub attempt : List ℤ → Act (Scheduler rt) (List (ℤ × Logits))
  unfolding rows_for graph_part eager_part with_logits
  attempt active s =
      (do
        graph_batch ← rows_for (by_graph s) active
        eager_batch ← rows_for (λ lora. not (by_graph s lora)) active
        graph_logits ← graph_part graph_batch
        eager_logits ← eager_part eager_batch
        pure (with_logits graph_batch graph_logits ++ with_logits eager_batch eager_logits))
        s

  unfoldable pub append_all : List (ℤ × Logits) → Act (Scheduler rt) (List ℤ)
  append_all [] = pure []
  append_all ((id, logits) ∷ rest) = do
    sample_and_append id logits
    ids ← append_all rest
    pure (id ∷ ids)

  -- The `while active` loop; each failure makes the list shorter by one, so that its length is fuel
  -- enough. The result is the list as the loop leaves it, in the order of the logits.
  unfoldable pub decode_loop : ℕ → List ℤ → Act (Scheduler rt) (List ℤ)
  unfolding split_last
  decode_loop fuel [] s = (ok [], s)
  decode_loop zero (x ∷ xs) s = (ok [], s)
  decode_loop (suc fuel) (x ∷ xs) s = elim (attempt (x ∷ xs) s).0 [
    | ok logits ↦ append_all logits (attempt (x ∷ xs) s).1
    | err out_of_memory ↦
        (do preempt (split_last x xs).1; decode_loop fuel (split_last x xs).0)
          (attempt (x ∷ xs) s).1
    | err e ↦ (err e, (attempt (x ∷ xs) s).1)
  ]

  unfoldable pub decode_active : List ℤ → Act (Scheduler rt) (List ℤ)
  unfolding decode_loop
  decode_active active = decode_loop (length active) active
