-- ===== src/Llama.antt =====
-- The layers of src/wllm/models/llama.py, row by row: one row is what a layer has for one token. What PyTorch
-- computes on rows is a parameter, and so is the arithmetic of the CUDA kernel.
pub mod Cached
pub mod Causal
pub mod Rows
pub mod Spec
pub mod Attend
pub mod Prefill
pub mod Chunks
pub mod Naive
pub mod Decode
use w_llm.Base.{
  ℕ, zero, suc, ◌+◌, ◌*◌, Bool, true, false, Option, none, some, List, [], ◌∷◌, ◌++◌, map, length,
  leb, ltb, replicate, if◌then◌else◌,
}
use w_llm.Base.Table.{zip_with}
use w_llm.Kv.Storage.{Storage}
use w_llm.Kv.Slots.{gather_slots}
use w_llm.Runtime.{Chunk}

-- Rows of projections `P`, of attention `A`, and of the cache `S`.
pub record Torch (P A S : Type 0) : Type 0 where
  -- apply_rotary_pos_emb with the cosines and sines of a position
  pub rotate : ℕ → P → P
  pub repeat_kv : P → P
  -- x.float(), and x.to(k.dtype)
  pub to_float : P → S
  pub of_float : S → P
  -- scaled_dot_product_attention with attn_mask, and with is_causal
  pub sdpa : List (List Bool) → List P → List P → List P → List A
  pub sdpa_causal : List P → List P → List P → List A

-- The projections of LlamaAttention, with what an adapter adds to each of them.
pub record Attention (H P A : Type 0) : Type 0 where
  pub q_proj : H → P
  pub k_proj : H → P
  pub v_proj : H → P
  pub o_proj : A → H
  pub q_delta : Option ℕ → H → P → P
  pub k_delta : Option ℕ → H → P → P
  pub v_delta : Option ℕ → H → P → P
  pub o_delta : Option ℕ → A → H → H

-- LlamaMLP, over rows `M` of its inner layer.
pub record Mlp (H M : Type 0) : Type 0 where
  pub gate_proj : H → M
  pub up_proj : H → M
  pub down_proj : M → H
  pub silu : M → M
  pub mul : M → M → M

pub record DecoderLayer (H P A M : Type 0) : Type 0 where
  pub self_attn : Attention H P A
  pub mlp : Mlp H M
  pub input_layernorm : H → H
  pub post_attention_layernorm : H → H

pub record LlamaForCausalLm (H P A M L : Type 0) : Type 0 where
  pub embed_tokens : ℕ → H
  -- embed_scale != 1.0, and the product with it
  pub is_scaled : Bool
  pub scale : H → H
  pub add : H → H → H
  pub layers : List (DecoderLayer H P A M)
  pub norm : H → H
  pub tie_word_embeddings : Bool
  -- F.linear(hidden, embed_tokens.weight), and lm_head
  pub tied_head : H → L
  pub lm_head : H → L

-- Columns j, j + 1, … of row i of a lower triangle.
unfoldable pub tril_row : ℕ → ℕ → ℕ → List Bool
tril_row i j zero = []
tril_row i j (suc n) = leb j i ∷ tril_row i (j + 1) n

-- Rows i, i + 1, … of the mask: all of the prefix, and the new tokens up to the row's own.
unfoldable pub prefix_mask : ℕ → ℕ → ℕ → ℕ → List (List Bool)
unfolding tril_row
prefix_mask prefix_len size i zero = []
prefix_mask prefix_len size i (suc n) =
    (replicate prefix_len true ++ tril_row i 0 size) ∷ prefix_mask prefix_len size (i + 1) n

unfoldable pub mlp_forward : {H M : Type 0} → Mlp H M → H → H
mlp_forward l x = l.down_proj (l.mul (l.silu (l.gate_proj x)) (l.up_proj x))

module _ {P A S : Type 0} (tc : Torch P A S) where
  -- The rows of the tokens from position `pos` on.
  unfoldable pub rotated : ℕ → List P → List P
  rotated pos [] = []
  rotated pos (p ∷ ps) = tc.rotate pos p ∷ rotated (pos + 1) ps

  module _ {H : Type 0} (at : Attention H P A) where
    -- LlamaAttention.forward
    unfoldable pub attention : ℕ → List H → List H
    unfolding rotated
    attention pos xs = map at.o_proj (
        tc.sdpa_causal (rotated pos (map at.q_proj xs))
          (map tc.repeat_kv (rotated pos (map at.k_proj xs))) (map tc.repeat_kv (map at.v_proj xs)))

    -- The projections with the adapter's share.
    abbrev pub q_rows : Option ℕ → List H → List P
    q_rows lora = map (λ x. at.q_delta lora x (at.q_proj x))

    abbrev pub k_rows : Option ℕ → List H → List P
    k_rows lora = map (λ x. at.k_delta lora x (at.k_proj x))

    abbrev pub v_rows : Option ℕ → List H → List P
    v_rows lora = map (λ x. at.v_delta lora x (at.v_proj x))

    abbrev pub o_rows : Option ℕ → List A → List H
    o_rows lora = map (λ a. at.o_delta lora a (at.o_proj a))

  -- The attention over a cached prefix, if there is one, and the new tokens.
  unfoldable pub attend_after : Option (List S × List S) → List P → List P → List P → List A
  unfolding prefix_mask
  attend_after none q k v = tc.sdpa_causal q (map tc.repeat_kv k) (map tc.repeat_kv v)
  attend_after (some (prefix_k, prefix_v)) q k v =
      tc.sdpa (prefix_mask (length prefix_k) (length q) 0 (length q)) q
        (map tc.repeat_kv (map tc.of_float prefix_k ++ k))
        (map tc.repeat_kv (map tc.of_float prefix_v ++ v))

  module _ {T B : Type 0} (st : Storage T B S) where
    -- cache[block_id, slot] = row, for each position and its row; there are as many of both.
    unfoldable pub write_rows : List (ℕ × ℕ) → List P → T → T
    write_rows ((b, s) ∷ ps) (r ∷ rs) t = write_rows ps rs (st.write t b s (tc.to_float r))
    write_rows _ _ t = t

    -- cache.gather_prefix_kv, where something is cached
    unfoldable pub prefix_of : ℕ → Chunk → T → T → Option (List S × List S)
    unfolding gather_slots
    prefix_of block_size c k v =
        if ltb 0 c.start
        then some (
          gather_slots st block_size k c.prefix_blocks c.start,
          gather_slots st block_size v c.prefix_blocks c.start,
        )
        else none

    -- LlamaAttention.forward_prefill_with_prefix: the tensors after the writes, and the rows.
    unfoldable pub attention_with_prefix :
        {H : Type 0}
        → Attention H P A
        → Chunk
        → Option (List S × List S)
        → T
        → T
        → List H
        → T × T × List H
    unfolding rotated attend_after write_rows
    attention_with_prefix at c prefix_kv k v xs =
        let qs = rotated c.start (q_rows at c.lora xs) in
        let ks = rotated c.start (k_rows at c.lora xs) in
        let vs = v_rows at c.lora xs in
        (
          write_rows c.positions ks k,
          write_rows c.positions vs v,
          o_rows at c.lora (attend_after prefix_kv qs ks vs),
        )

module _ {H P A M L S : Type 0} (m : LlamaForCausalLm H P A M L) (tc : Torch P A S) where
  unfoldable pub embed : ℕ → H
  embed t = if m.is_scaled then m.scale (m.embed_tokens t) else m.embed_tokens t

  unfoldable pub compute_logits : H → L
  compute_logits h = if m.tie_word_embeddings then m.tied_head h else m.lm_head h

  -- The second half of a layer.
  unfoldable pub feed_forward : DecoderLayer H P A M → H → H
  unfolding mlp_forward
  feed_forward l x = m.add x (mlp_forward l.mlp (l.post_attention_layernorm x))

  abbrev pub after_attention : DecoderLayer H P A M → List H → List H → List H
  after_attention l xs ys = map (feed_forward l) (zip_with m.add xs ys)

  -- LlamaDecoderLayer.forward, and the loop over the layers.
  unfoldable pub layer_forward : DecoderLayer H P A M → List H → List H
  unfolding attention feed_forward
  layer_forward l xs = after_attention l xs (attention tc l.self_attn 0 (map l.input_layernorm xs))

  unfoldable pub layers_forward : List (DecoderLayer H P A M) → List H → List H
  unfolding layer_forward
  layers_forward [] xs = xs
  layers_forward (l ∷ ls) xs = layers_forward ls (layer_forward l xs)

  -- LlamaForCausalLM.forward, for one sequence.
  unfoldable pub forward : List ℕ → List L
  unfolding embed layers_forward compute_logits
  forward tokens = map compute_logits (map m.norm (layers_forward m.layers (map embed tokens)))

  module _ {T B : Type 0} (st : Storage T B S) (block_size : ℕ) where
    -- LlamaDecoderLayer.forward_prefill_with_prefix
    unfoldable pub layer_with_prefix :
        Chunk → DecoderLayer H P A M → T → T → List H → T × T × List H
    unfolding prefix_of attention_with_prefix feed_forward
    layer_with_prefix c l k v xs =
        let (k', v', ys) =
          attention_with_prefix tc st l.self_attn c (prefix_of tc st block_size c k v) k v
            (map l.input_layernorm xs) in
        (k', v', after_attention l xs ys)

    -- The loop of continue_prefill over the layers; the cache has a pair of tensors for each.
    unfoldable pub layers_with_prefix :
        Chunk → List (DecoderLayer H P A M) → List T → List T → List H → List T × List T × List H
    unfolding layer_with_prefix
    layers_with_prefix c (l ∷ ls) (k ∷ ks) (v ∷ vs) xs =
        let (k', v', ys) = layer_with_prefix c l k v xs in
        let (ks', vs', zs) = layers_with_prefix c ls ks vs ys in (k' ∷ ks', v' ∷ vs', zs)
    layers_with_prefix c _ ks vs xs = (ks, vs, xs)

    -- The tensors and the logits of continue_prefill.
    unfoldable pub run_chunk : List T → List T → Chunk → List T × List T × List L
    unfolding embed layers_with_prefix compute_logits
    run_chunk ks vs c =
        let (ks', vs', xs) = layers_with_prefix c m.layers ks vs (map embed c.tokens) in
        (ks', vs', map compute_logits (map m.norm xs))
