-- ===== src/Tests/Layers.antt =====
-- A small model for src/wllm/models/llama.py, whose rows are numbers: a prompt in two chunks, and a decode step
-- of two rows.
use w_llm.Base.{
  ℕ, ◌+◌, ◌*◌, ◌≡◌, ◌⊎◌, refl, true, false, none, some, List, [], ◌∷◌, length, arith, ◌/◌, ◌%◌,
  Bool,
}
use w_llm.Base.Table.{zip_with}
use w_llm.Runtime.{Runtime, Row}
use w_llm.Llama.{Torch, DecoderLayer, LlamaForCausalLm, prefix_mask, run_chunk, forward}
use w_llm.Llama.Causal.{TorchLaws, masked_rows}
use w_llm.Llama.Chunks.{LayersCached-nil}
use w_llm.Llama.Naive.{NoAdapter}
use w_llm.Llama.Decode.{run_batch, run_graph}
use w_llm.Llama.Decode.Graphable.{buffers_of, IndexCopyLaws, run_graph-run_batch}
use w_llm.Base.Int.{pos}
use w_llm.Base.Dict.{get, put}
use w_llm.Base.Outcome.{ok, err, out_of_memory}
use w_llm.Kv.Manager.{init, empty_state, create_sequence}
use w_llm.Kv.Ownership.{Inv, init-Inv, create_sequence-Inv}
use w_llm.Model.{Cache, continue_prefill}
use w_llm.Model.Layered.{Holds, Continued, continue_prefill-Continued}
use w_llm.Model.Layered.Prompt.{prefill_in_chunks, prefill_in_chunks-forward}
use w_llm.Tests.Toy.{Mem₂, toy}
use w_llm.Tests.Beams.{toy_runtime}

abbrev attend : ℕ → List (ℕ × ℕ) → ℕ
attend q [] = q
attend q ((k, v) ∷ kvs) = k * v + attend q kvs

abbrev masked : List (List Bool) → List ℕ → List ℕ → List ℕ → List ℕ
masked mask qs ks vs = masked_rows attend mask qs (zip_with (λ k v. (k, v)) ks vs)

abbrev small_torch : Torch ℕ ℕ ℕ
small_torch = record {
  rotate = λ pos p. p + pos;
  repeat_kv = λ p. p;
  to_float = λ p. p;
  of_float = λ s. s;
  sdpa = masked;
  sdpa_causal = λ qs ks vs. masked (prefix_mask 0 (length ks) 0 (length qs)) qs ks vs;
}

abbrev small_laws : TorchLaws small_torch
small_laws = record {
  attend = attend;
  sdpa-masked = λ mask qs ks vs. refl;
  sdpa-causal = λ qs ks vs. refl;
  of_float-to_float = λ p. refl;
}

abbrev layer : ℕ → DecoderLayer ℕ ℕ ℕ ℕ
layer w = record {
  self_attn = record {
    q_proj = λ x. x + w;
    k_proj = λ x. x;
    v_proj = λ x. x + 1;
    o_proj = λ a. a;
    q_delta = λ lora x p. elim lora [ none ↦ p | some i ↦ p + i ];
    k_delta = λ lora x p. p;
    v_delta = λ lora x p. p;
    o_delta = λ lora a h. h;
  };
  mlp = record {
    gate_proj = λ x. x;
    up_proj = λ x. w;
    down_proj = λ x. x;
    silu = λ x. x;
    mul = λ x y. x + y;
  };
  input_layernorm = λ x. x;
  post_attention_layernorm = λ x. x + 1;
}

abbrev small_model : LlamaForCausalLm ℕ ℕ ℕ ℕ ℕ
small_model = record {
  embed_tokens = λ t. t;
  is_scaled = false;
  scale = λ x. x;
  add = λ x y. x + y;
  layers = layer 1 ∷ layer 2 ∷ [];
  norm = λ x. x;
  tie_word_embeddings = false;
  tied_head = λ x. x;
  lm_head = λ x. x + 7;
}

layer-NoAdapter : (w : ℕ) → NoAdapter (layer w).self_attn
layer-NoAdapter w = record {
  q_same = λ x p. refl;
  k_same = λ x p. refl;
  v_same = λ x p. refl;
  o_same = λ a h. refl;
}

abbrev layered_runtime : Runtime
layered_runtime = record toy_runtime { run_chunk = run_chunk small_model small_torch toy 2 }

abbrev small_cache : Cache layered_runtime
small_cache = init toy 2 8 2 true

-- Three tokens, then a fourth.
prefill_in_chunks-forward_example :
    ((prefill_in_chunks layered_runtime small_model small_torch small_laws
        (λ ls. ls)
        (pos 7)
        ((1 ∷ 2 ∷ 3 ∷ []) ∷ (4 ∷ []) ∷ [])
        small_cache).0
      ≡ ok (forward small_model small_torch (1 ∷ 2 ∷ 3 ∷ 4 ∷ [])))
    ⊎ ((prefill_in_chunks layered_runtime small_model small_torch small_laws
          (λ ls. ls)
          (pos 7)
          ((1 ∷ 2 ∷ 3 ∷ []) ∷ (4 ∷ []) ∷ [])
          small_cache).0
        ≡ err out_of_memory)
unfolding init get
prefill_in_chunks-forward_example =
    prefill_in_chunks-forward layered_runtime small_model small_torch small_laws (λ ls. ls)
      small_cache (pos 7) ((1 ∷ 2 ∷ 3 ∷ []) ∷ (4 ∷ []) ∷ []) refl (omega arith)
      (λ ks vs c. (refl, refl, refl)) (init-Inv toy 2 8 2 true) refl refl
      (layer-NoAdapter 1, (layer-NoAdapter 2, tt))

-- A sequence of no tokens yet.
abbrev started : Cache layered_runtime
started = record small_cache { sequences = (pos 7, empty_state) ∷ [] }

started-Inv : Inv started
unfolding init get create_sequence put
started-Inv = create_sequence-Inv small_cache (pos 7) refl (init-Inv toy 2 8 2 true)

started-Holds :
    Holds layered_runtime small_model small_torch small_laws (λ ls. ls) started (pos 7) none []
unfolding init get
started-Holds = record {
  state = empty_state;
  found = refl;
  context = refl;
  covered = omega arith;
  once = λ b. omega arith;
  cached =
      LayersCached-nil small_model small_torch small_laws toy 2 none small_model.layers []
        started.k_caches started.v_caches refl refl;
}

continue_prefill-Continued_example :
    Continued layered_runtime small_model small_torch small_laws
      (λ ls. ls)
      (pos 7)
      none
      []
      (1 ∷ 2 ∷ 3 ∷ [])
      (continue_prefill layered_runtime (pos 7) (1 ∷ 2 ∷ 3 ∷ []) none started)
unfolding init
continue_prefill-Continued_example =
    continue_prefill-Continued layered_runtime small_model small_torch small_laws (λ ls. ls) started
      (pos 7) none [] (1 ∷ 2 ∷ 3 ∷ []) (omega arith) (λ ks vs c. (refl, refl, refl)) started-Inv
      started-Holds

abbrev blank : List Mem₂
blank = (λ b s. 9) ∷ (λ b s. 8) ∷ []

-- The kernel, here, adds what stands in the slots of the first block.
abbrev small_paged : ℕ → Mem₂ → Mem₂ → List ℕ → ℕ → ℕ
small_paged q k v [] n = q
small_paged q k v (b ∷ bs) n = q + k b 0 * v b 0 + k b 1 * v b 1

unfoldable copy_rows : List ℕ → List ℕ → Mem₂ → Mem₂
copy_rows (i ∷ idx) (r ∷ rs) t = copy_rows idx rs (toy.write t (i / 2) (i % 2) r)
copy_rows _ _ t = t

copy_rows-IndexCopyLaws : IndexCopyLaws toy 2 copy_rows
unfolding copy_rows
copy_rows-IndexCopyLaws = record {
  index_copy-nil = λ t. refl;
  index_copy-cons = λ i idx r rs t h apart. refl;
}

abbrev row : ℕ → ℕ → ℕ → ℕ → Row
row token position b s = record {
  token = token;
  position = position;
  slot = (b, s);
  block_table = b ∷ [];
  context_len = s + 1;
  lora = none;
}

abbrev two_rows : List Row
two_rows = row 4 1 5 1 ∷ row 6 0 2 0 ∷ []

run_graph-run_batch_example :
    run_graph small_torch toy 2 small_paged small_model copy_rows blank blank
      (buffers_of 2 two_rows)
    ≡ run_batch small_torch toy 2 small_paged small_model blank blank two_rows
run_graph-run_batch_example =
    run_graph-run_batch small_torch toy 2 small_paged copy_rows copy_rows-IndexCopyLaws small_model
      two_rows blank blank (layer-NoAdapter 1, (layer-NoAdapter 2, tt))
      ((refl, omega arith), ((refl, omega arith), tt)) (λ n. ground arith)
