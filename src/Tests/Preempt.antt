-- ===== src/Tests/Preempt.antt =====
-- Preemption in src/wllm/engine/scheduler.py over the toy model: sequence 7 runs.
use w_llm.Base.{ℕ, refl, true, false, none, [], ◌∷◌}
use w_llm.Base.Int.{pos}
use w_llm.Base.Dict.{get}
use w_llm.Sequence.{Sequence}
use w_llm.Scheduler.{Scheduler, Config, preempt}
use w_llm.Scheduler.Preempt.{Preempted, preempt-Preempted}
use w_llm.Tests.Beams.{toy_runtime}
use w_llm.Tests.Cache.{filled, seven, filled-found, filled-Inv}
use w_llm.Tests.Engine.{open_seq}

abbrev pub swapping : Config
swapping = record {
  max_prefill_tokens_per_step = none;
  enable_cpu_swap = true;
  enable_speculative_decoding = false;
  speculative_ngram_size = 3;
  speculative_max_draft_len = 5;
}

abbrev pub seq_seven : Sequence ℕ ℕ
seq_seven = record open_seq { seq_id = pos 7; output_token_ids = 4 ∷ []; logprobs = 1 ∷ [] }

abbrev pub one_running : Scheduler toy_runtime
one_running = record {
  config = swapping;
  cache = filled;
  rng = 0;
  store = (pos 7, seq_seven) ∷ [];
  waiting = [];
  running = pos 7 ∷ [];
  swapped = [];
  beam_groups = [];
  completed_beam_groups = [];
  graph_decoder = none;
}

preempt-Preempted_example :
    Preempted one_running (pos 7) seq_seven seven (preempt (pos 7) one_running)
unfolding get
preempt-Preempted_example =
    preempt-Preempted one_running (pos 7) seq_seven seven refl filled-found filled-Inv
