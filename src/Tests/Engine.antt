-- ===== src/Tests/Engine.antt =====
-- A sequence of src/wllm/engine/sequence.py with room for four tokens, and a model whose next token
-- is the length of the history.
use w_llm.Base.{
  ℕ, ◌+◌, ◌≤◌, ◌≡◌, refl, true, false, none, some, List, [], ◌∷◌, ◌++◌, arith, take, map, length,
}
use w_llm.Base.Int.{pos}
use w_llm.Sequence.{Sequence, SeqStatus, SamplingParams, Guides, is_finished}
use w_llm.Sequence.Append.{IsOpen, append_until_finished, append_until_finished_total}
use w_llm.Speculative.{propose_ngram_draft}
use w_llm.Speculative.Draft.{IsDraft, propose-IsDraft}

abbrev pub no_guides : Guides ℕ
no_guides = record { advance = λ g t. g + t; is_done = λ g. false }

abbrev zero_logprob : ℕ → ℕ → ℕ
zero_logprob j t = 0

abbrev greedy_params : SamplingParams ℕ
greedy_params = record {
  temperature = 0;
  top_k = 0;
  top_p = 1;
  min_p = 0;
  repetition_penalty = 1;
  seed = none;
}

abbrev pub open_seq : Sequence ℕ ℕ
open_seq = record {
  seq_id = pos 1;
  prompt_token_ids = 9 ∷ 8 ∷ [];
  max_new_tokens = 4;
  eos_token_id = some 100;
  stop_token_ids = [];
  sampling_params = greedy_params;
  output_token_ids = [];
  logprobs = [];
  status = SeqStatus.running;
  guide = none;
  lora_id = none;
}

open_seq-IsOpen : IsOpen no_guides open_seq
open_seq-IsOpen = record { going = refl; room = omega arith; paired = refl }

propose-IsDraft_example :
    IsDraft (1 ∷ 2 ∷ 3 ∷ 1 ∷ 2 ∷ []) 2 2 (propose_ngram_draft (1 ∷ 2 ∷ 3 ∷ 1 ∷ 2 ∷ []) 2 2)
propose-IsDraft_example = propose-IsDraft (1 ∷ 2 ∷ 3 ∷ 1 ∷ 2 ∷ []) 2 2 (omega arith) (omega arith)

-- The draft is what followed the earlier 1 2.
propose_run : propose_ngram_draft (1 ∷ 2 ∷ 3 ∷ 1 ∷ 2 ∷ []) 2 2 ≡ some (3 ∷ 1 ∷ [])
unfolding propose_ngram_draft
propose_run = refl

abbrev five_tokens : List (ℕ × ℕ)
five_tokens = (5, 0) ∷ (6, 0) ∷ (7, 0) ∷ (8, 0) ∷ (9, 0) ∷ []

append_until_finished_total_example :
    let r = append_until_finished no_guides open_seq five_tokens in
    (is_finished r ≡ true)
    × (length r.output_token_ids ≤ 4)
    × ((n : ℕ) × (r.output_token_ids ≡ [] ++ take n (map (λ (p : ℕ × ℕ). p.0) five_tokens)))
append_until_finished_total_example =
    append_until_finished_total no_guides open_seq five_tokens open_seq-IsOpen (omega arith)
