-- ===== src/Tests/Prefill.antt =====
-- Prefills of src/wllm/models/llama.py over the toy model.
use w_llm.Base.{ℕ, ◌*◌, ◌<◌, ◌≡◌, List, length, drop, refl, true, none, [], ◌∷◌, arith}
use w_llm.Base.Int.{pos}
use w_llm.Base.Dict.{get}
use w_llm.Base.Outcome.{ok}
use w_llm.Kv.Prefix.{match_prefix}
use w_llm.Kv.Manager.{init}
use w_llm.Kv.Ownership.{init-Inv}
use w_llm.Model.{continue_prefill, prefill_with_cache_and_prefix_reuse}
use w_llm.Model.Prefill.{Prefilled, continue_prefill-Prefilled}
use w_llm.Model.Prefill.Reuse.{prefill_with_cache_and_prefix_reuse-Prefilled}
use w_llm.Tests.Toy.{toy}
use w_llm.Tests.Beams.{toy_runtime}
use w_llm.Tests.Cache.{fresh, filled, seven, filled-found, filled-Inv}

prefill_with_cache_and_prefix_reuse-Prefilled_example :
    (bs : List ℕ) × (match_prefix toy_runtime.hash (5 ∷ 6 ∷ 7 ∷ []) fresh ≡ ok (bs, length bs * 2))
    × (length bs * 2 < 3)
    × Prefilled toy_runtime
        (pos 7)
        2
        none
        bs
        (drop (length bs * 2) (5 ∷ 6 ∷ 7 ∷ []))
        (length bs * 2)
        fresh.k_caches
        fresh.v_caches
        (prefill_with_cache_and_prefix_reuse toy_runtime (pos 7) (5 ∷ 6 ∷ 7 ∷ []) none fresh)
unfolding init get
prefill_with_cache_and_prefix_reuse-Prefilled_example =
    prefill_with_cache_and_prefix_reuse-Prefilled toy_runtime fresh (pos 7) (5 ∷ 6 ∷ 7 ∷ []) none
      refl (omega arith) (omega arith) (init-Inv toy 1 4 2 true)

continue_prefill-Prefilled_example :
    Prefilled toy_runtime
      (pos 7)
      2
      none
      seven.block_table
      (1 ∷ 2 ∷ 3 ∷ 4 ∷ [])
      3
      filled.k_caches
      filled.v_caches
      (continue_prefill toy_runtime (pos 7) (1 ∷ 2 ∷ 3 ∷ 4 ∷ []) none filled)
continue_prefill-Prefilled_example =
    continue_prefill-Prefilled toy_runtime filled (pos 7) seven (1 ∷ 2 ∷ 3 ∷ 4 ∷ []) none
      filled-found (omega arith) (omega arith) filled-Inv
