-- ===== src/BeamSearch/Safe.antt =====
-- A step of src/wllm/engine/beam_search.py keeps the cache safe, also where it raises half-way.
use w_llm.Base.{ℕ, ◌+◌, List, [], ◌∷◌}
use w_llm.Base.Keeps.{Keeps-bind, Keeps-pure, Keeps-result, if-Keeps}
use w_llm.Base.Outcome.{ok}
use w_llm.Kv.Safe.{Safe, IsSafe}
use w_llm.Kv.Safe.Calls.{free_sequence-Safe}
use w_llm.Runtime.{Runtime}
use w_llm.Model.Safe.{prefill_with_cache_and_prefix_reuse-Safe}
use w_llm.BeamSearch.{Beam, BeamGroup, expand, step, settle, scratch_id, is_done}

module _ (rt : Runtime) where
  open rt use {Float}

  expand-Safe :
      (g : BeamGroup Float) (i : ℕ) (beams : List (Beam Float)) → IsSafe (expand rt g i beams)
  unfolding expand
  expand-Safe g i [] = Keeps-pure []
  expand-Safe g i (b ∷ bs) =
      Keeps-bind
        (prefill_with_cache_and_prefix_reuse-Safe rt (scratch_id g.group_id i) b.token_ids
          g.lora_id)
        λ logits.
          Keeps-bind (free_sequence-Safe (scratch_id g.group_id i))
            λ _. Keeps-bind (expand-Safe g (i + 1) bs) λ rest. Keeps-pure _

  pub step-Safe : (g : BeamGroup Float) → IsSafe (step rt g)
  unfolding step
  step-Safe g = record {
    at = λ m s.
        if-Keeps Safe (is_done g) (ok g, m) _ s
          ((Keeps-bind (expand-Safe g 0 g.beams)
              λ candidates. Keeps-result (settle rt g candidates)).at
            m s);
  }
