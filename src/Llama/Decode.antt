-- ===== src/Llama/Decode.antt =====
-- A decode step of src/wllm/models/llama.py: one row for each sequence of the batch, eagerly and in the form that
-- a CUDA graph can capture. The kernel (src/wllm/kernels) is a parameter.
pub mod Graphable
use w_llm.Base.{ℕ, ◌+◌, ◌*◌, ◌/◌, ◌%◌, Option, none, some, List, [], ◌∷◌, ◌++◌, map, length}
use w_llm.Base.Table.{zip_with}
use w_llm.Kv.Storage.{Storage}
use w_llm.Runtime.{Row, Buffers}
use w_llm.Llama.{
  Torch, Attention, DecoderLayer, LlamaForCausalLm, write_rows, after_attention, embed,
  compute_logits, feed_forward,
}

module _ {P A S T B : Type 0} (tc : Torch P A S) (st : Storage T B S) (block_size : ℕ)
    -- paged_attention_decode for one row, and the cast of what it gives: the query, the tensors, the block
    -- table and the length
    (paged : P → T → T → List ℕ → ℕ → A) where
  abbrev pub attend_rows : List P → T → T → List (List ℕ) → List ℕ → List A
  attend_rows (q ∷ qs) k v (table ∷ tables) (n ∷ lens) =
      paged q k v table n ∷ attend_rows qs k v tables lens
  attend_rows _ k v _ _ = []

  module _ {H : Type 0} (at : Attention H P A) where
    -- LlamaAttention.forward_decode
    unfoldable pub attention_decode : List Row → T → T → List H → T × T × List H
    unfolding write_rows
    attention_decode rows k v xs =
        let loras = map (λ (r : Row). r.lora) rows in
        let positions = map (λ (r : Row). r.position) rows in
        let slots = map (λ (r : Row). r.slot) rows in
        let qs =
          zip_with tc.rotate positions
            (zip_with (λ lora x. at.q_delta lora x (at.q_proj x)) loras xs) in
        let ks =
          zip_with tc.rotate positions
            (zip_with (λ lora x. at.k_delta lora x (at.k_proj x)) loras xs) in
        let vs = zip_with (λ lora x. at.v_delta lora x (at.v_proj x)) loras xs in
        let k' = write_rows tc st slots ks k in
        let v' = write_rows tc st slots vs v in
        let out =
          attend_rows qs k' v' (map (λ (r : Row). r.block_table) rows)
            (map (λ (r : Row). r.context_len) rows) in
        (k', v', zip_with (λ lora a. at.o_delta lora a (at.o_proj a)) loras out)

    -- LlamaAttention.forward_decode_graphable; `index_copy` is k_flat.index_copy_(0, indices, rows).
    unfoldable pub attention_graphable :
        (List ℕ → List S → T → T) → Buffers → T → T → List H → T × T × List H
    attention_graphable index_copy b k v xs =
        let qs = zip_with tc.rotate b.position_ids (map at.q_proj xs) in
        let ks = zip_with tc.rotate b.position_ids (map at.k_proj xs) in
        let vs = map at.v_proj xs in
        let k' = index_copy b.write_idx (map tc.to_float ks) k in
        let v' = index_copy b.write_idx (map tc.to_float vs) v in
        (k', v', map at.o_proj (attend_rows qs k' v' b.block_table b.context_len))

  module _ {H M L : Type 0} (m : LlamaForCausalLm H P A M L) where
    -- The loops over the layers, for the two forms of attention; the cache has a pair of tensors for each layer.
    abbrev pub decode_layers :
        (Attention H P A → T → T → List H → T × T × List H)
        → List (DecoderLayer H P A M)
        → List T
        → List T
        → List H
        → List T × List T × List H
    decode_layers attend (l ∷ ls) (k ∷ ks) (v ∷ vs) xs =
        let (k', v', ys) = attend l.self_attn k v (map l.input_layernorm xs) in
        let (ks', vs', zs) = decode_layers attend ls ks vs (after_attention m tc l xs ys) in
        (k' ∷ ks', v' ∷ vs', zs)
    decode_layers attend _ ks vs xs = (ks, vs, xs)

    -- The tensors and the logits of decode_step_batch.
    unfoldable pub run_batch : List T → List T → List Row → List T × List T × List L
    unfolding attention_decode
    run_batch ks vs rows =
        let (ks', vs', xs) =
          decode_layers (λ at. attention_decode at rows) m.layers ks vs
            (map (λ (r : Row). embed m tc r.token) rows) in
        (ks', vs', map (compute_logits m tc) (map m.norm xs))

    -- decode_step_graphable
    unfoldable pub run_graph :
        (List ℕ → List S → T → T) → List T → List T → Buffers → List T × List T × List L
    unfolding attention_graphable
    run_graph index_copy ks vs b =
        let (ks', vs', xs) =
          decode_layers (λ at. attention_graphable at index_copy b) m.layers ks vs
            (map (embed m tc) b.token_ids) in
        (ks', vs', map (compute_logits m tc) (map m.norm xs))
