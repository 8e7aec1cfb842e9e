-- ===== src/Llama/Naive.antt =====
-- LlamaForCausalLM.forward of src/wllm/models/llama.py, without a cache, and the chunked prefill that it is
-- compared with.
use w_llm.Base.{ℕ, ◌<◌, ◌≡◌, refl, ◌∙◌, sym, ap, none, List, [], ◌∷◌, ◌++◌, map, length, All}
use w_llm.Kv.Storage.{Storage}
use w_llm.Runtime.{Chunk}
use w_llm.Llama.{
  Torch, Attention, DecoderLayer, LlamaForCausalLm, embed, compute_logits, forward, layers_forward,
  layer_forward, attention, attend_after, after_attention, q_rows, k_rows, v_rows, o_rows,
}
use w_llm.Llama.Causal.{TorchLaws}
use w_llm.Llama.Spec.{
  layer_whole, layers_whole, forward_with, attended, query_rows, key_rows, length-v_rows,
  length-query_rows, length-key_rows,
}
use w_llm.Llama.Attend.{attend_after-none}
use w_llm.Llama.Chunks.{
  Consecutive, tokens_of, run_chunks, run_chunks-forward_with, LayersCached-nil,
}

same_map :
    {X Y : Type 0} (f g : X → Y) → ((x : X) → f x ≡ g x) → (xs : List X) → map f xs ≡ map g xs
same_map f g e [] = refl
same_map f g e (x ∷ xs) = rw (e x, same_map f g e xs) refl

module _ {H P A : Type 0} where
  -- An adapter that a row does not use adds nothing to it.
  pub record NoAdapter (at : Attention H P A) : Type 0 where
    pub q_same : (x : H) (p : P) → at.q_delta none x p ≡ p
    pub k_same : (x : H) (p : P) → at.k_delta none x p ≡ p
    pub v_same : (x : H) (p : P) → at.v_delta none x p ≡ p
    pub o_same : (a : A) (h : H) → at.o_delta none a h ≡ h

module _ {H P A S : Type 0} (tc : Torch P A S) (laws : TorchLaws tc) where
  -- LlamaAttention.forward is causal attention, token by token.
  attention-attended :
      (at : Attention H P A) (xs : List H)
      → NoAdapter at
      → attention tc at 0 xs ≡ attended tc laws at none 0 [] xs
  unfolding attention attend_after
  attention-attended at xs n =
      let qs : map at.q_proj xs ≡ q_rows tc at none xs =
        same_map _ _ (λ x. sym (n.q_same x (at.q_proj x))) xs in
      let ks : map at.k_proj xs ≡ k_rows tc at none xs =
        same_map _ _ (λ x. sym (n.k_same x (at.k_proj x))) xs in
      let vs : map at.v_proj xs ≡ v_rows tc at none xs =
        same_map _ _ (λ x. sym (n.v_same x (at.v_proj x))) xs in
      let q = query_rows tc laws at none 0 xs in
      let kr = key_rows tc laws at none 0 xs in
      let v = v_rows tc at none xs in
      rw (qs, ks, vs)
        (same_map _ _ (λ a. sym (n.o_same a (at.o_proj a))) (attend_after tc none q kr v)
          ∙ ap (o_rows tc at none) (
              attend_after-none tc laws q kr v (length-v_rows tc laws at none 0 xs) (
                length-query_rows tc laws at none 0 xs
                ∙ sym (length-key_rows tc laws at none 0 xs))))

module _ {P A S H M L T B : Type 0} (m : LlamaForCausalLm H P A M L) (tc : Torch P A S)
    (laws : TorchLaws tc) (st : Storage T B S) (k : ℕ) where
  layers_forward-layers_whole :
      (ls : List (DecoderLayer H P A M)) (xs : List H)
      → All (λ l. NoAdapter l.self_attn) ls
      → layers_forward m tc ls xs ≡ layers_whole tc laws m none ls xs
  unfolding layers_forward layers_whole
  layers_forward-layers_whole [] xs h = refl
  layers_forward-layers_whole (l ∷ ls) xs (here, rest) =
      let rows : layer_forward m tc l xs ≡ layer_whole tc laws m none l xs =
        unfold layer_forward in
        ap (after_attention m tc l xs)
          (attention-attended tc laws l.self_attn (map l.input_layernorm xs) here) in
      ap (layers_forward m tc ls) rows
      ∙ layers_forward-layers_whole ls (layer_whole tc laws m none l xs) rest

  layers_whole-nil : (ls : List (DecoderLayer H P A M)) → layers_whole tc laws m none ls [] ≡ []
  unfolding layers_whole
  layers_whole-nil [] = refl
  layers_whole-nil (l ∷ ls) = layers_whole-nil ls

  -- With no adapter, the pass without a cache.
  pub forward-forward_with :
      (tokens : List ℕ)
      → All (λ l. NoAdapter l.self_attn) m.layers
      → forward m tc tokens ≡ forward_with tc laws m none tokens
  unfolding forward forward_with
  forward-forward_with tokens plain =
      ap (λ zs. map (compute_logits m tc) (map m.norm zs))
        (layers_forward-layers_whole m.layers (map (embed m tc) tokens) plain)

  pub forward_with-nil : forward_with tc laws m none [] ≡ []
  unfolding forward_with
  forward_with-nil =
      ap (λ zs. map (compute_logits m tc) (map m.norm zs)) (layers_whole-nil m.layers)

  -- A prompt is cut into chunks that follow one another, in slots that continue one block table in which no
  -- block stands twice, with a pair of tensors for each layer and no adapter. Whatever the tensors held, the
  -- logits of the chunks in a row are those of one forward pass over the whole prompt.
  run_chunks-forward :
      (cs : List Chunk) (ks vs : List T)
      → 0 < k
      → length ks ≡ length m.layers
      → length vs ≡ length m.layers
      → All (λ l. NoAdapter l.self_attn) m.layers
      → Consecutive k none [] 0 cs
      → run_chunks m tc st k ks vs cs ≡ forward m tc (tokens_of cs)
  run_chunks-forward cs ks vs pos some_k some_v plain follow =
      let tokens = tokens_of cs in
      let whole : forward_with tc laws m none tokens
          ≡ forward_with tc laws m none [] ++ run_chunks m tc st k ks vs cs =
        run_chunks-forward_with m tc laws st k none cs [] ks vs [] pos follow
          (LayersCached-nil m tc laws st k none m.layers [] ks vs some_k some_v) in
      sym (
        forward-forward_with tokens plain
        ∙ whole
        ∙ ap (λ z. z ++ run_chunks m tc st k ks vs cs) forward_with-nil)
