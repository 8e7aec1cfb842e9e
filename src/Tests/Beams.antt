-- ===== src/Tests/Beams.antt =====
-- A beam group of src/wllm/engine/beam_search.py with two beams, over a toy model.
use w_llm.Base.{ℕ, ◌+◌, ◌≡◌, refl, none, some, List, [], ◌∷◌, length, arith, ltb, ◌==◌}
use w_llm.Base.Int.{pos}
use w_llm.Base.Outcome.{ok}
use w_llm.Runtime.{Runtime, Floats}
use w_llm.BeamSearch.{BeamGroup, Candidate, settle}
use w_llm.BeamSearch.Settle.{IsActive, Settled, settle-Settled}
use w_llm.Tests.Toy.{Mem₂, toy}
use w_llm.Tests.Engine.{no_guides}

abbrev pub nat_floats : Floats ℕ
nat_floats = record {
  zero_f = 0;
  one_f = 1;
  eq_f = λ a b. a == b;
  lt_f = λ a b. ltb a b;
  add_f = λ a b. a + b;
  div_f = λ a b. a;
  pow_f = λ n p. n;
}

abbrev pub toy_runtime : Runtime
toy_runtime = record {
  Tensor = Mem₂;
  Copy = ℕ × Mem₂;
  Slot = ℕ;
  Float = ℕ;
  Guide = ℕ;
  Logits = List ℕ;
  Rng = ℕ;
  storage = toy;
  floats = nat_floats;
  guides = no_guides;
  hash = λ parent ts. pos (length ts);
  run_chunk = λ ks vs c. (ks, vs, c.tokens);
  run_batch = λ ks vs rows. (ks, vs, []);
  run_graph = λ ks vs b. (ks, vs, []);
  sample_last = λ rng logits p out g. (length out, 0, rng);
  argmax_rows = λ logits. logits;
  logprob_at = λ logits j t. 0;
  topk_last = λ logits k. (3, 5) ∷ (2, 6) ∷ [];
}

-- One step was made; token 9 stops a beam.
abbrev two_beams : BeamGroup ℕ
two_beams = record {
  group_id = 0;
  prompt_token_ids = 1 ∷ 2 ∷ [];
  max_new_tokens = 3;
  num_beams = 2;
  length_penalty = 1;
  eos_token_id = some 9;
  stop_token_ids = [];
  lora_id = none;
  beams =
      record { token_ids = 1 ∷ 2 ∷ 5 ∷ []; cum_logprob = 4 }
      ∷ record { token_ids = 1 ∷ 2 ∷ 6 ∷ []; cum_logprob = 3 }
      ∷ [];
  finished = [];
  result = none;
  finish_reason = none;
}

two_beams-IsActive : IsActive toy_runtime two_beams 1
two_beams-IsActive = record {
  same_len = (refl, (refl, tt));
  ended = tt;
  few = omega arith;
  some_beam = omega arith;
  undone = refl;
  below = omega arith;
}

abbrev three_candidates : List (Candidate ℕ)
three_candidates =
    record { score = 6; parent = 0; token = 7 }
    ∷ record { score = 8; parent = 1; token = 9 }
    ∷ record { score = 7; parent = 1; token = 5 }
    ∷ []

settle-Settled_example :
    (g' : BeamGroup ℕ) × (settle toy_runtime two_beams three_candidates ≡ ok g')
    × Settled toy_runtime two_beams 1 g'
settle-Settled_example =
    settle-Settled toy_runtime two_beams 1 three_candidates two_beams-IsActive (omega arith)
      (omega arith) (omega arith, (omega arith, (omega arith, tt)))
