-- ===== src/Llama/Prefill.antt =====
-- The prefill of src/wllm/models/llama.py from a cache: the same rows as one pass over all tokens, and a cache that
-- holds the keys and values of all of them.
use w_llm.Base.{
  ℕ, ◌<◌, ◌≡◌, refl, ◌∙◌, sym, ap, subst, Option, none, some, true, List, [], ◌∷◌, ◌++◌, map,
  length, ltb, arith,
}
use mathlib.Core.List.{map-append}
use w_llm.Kv.Storage.{Storage}
use w_llm.Kv.Slots.{gather_slots}
use w_llm.Kv.Ownership.Reserve.{Slots}
use w_llm.Runtime.{Chunk}
use w_llm.Llama.{
  Torch, DecoderLayer, LlamaForCausalLm, v_rows, o_rows, after_attention, attend_after, prefix_of,
  attention_with_prefix, layer_with_prefix, layers_with_prefix,
}
use w_llm.Llama.Cached.{IsOnce, Cached, gather_slots-Cached, write_rows-Cached}
use w_llm.Llama.Causal.{TorchLaws}
use w_llm.Llama.Attend.{
  length-float_keys, length-float_values, float_keys-append, float_values-append, attend_after-none,
  attend_after-some,
}
use w_llm.Llama.Rows.{length-map}
use w_llm.Llama.Spec.{
  key_rows, query_rows, layer_after, layer_whole, layer_past, layer_whole-append,
  length-layer_after, layers_whole, length-key_rows, length-v_rows, length-query_rows,
}

-- A chunk that follows `n` tokens of a sequence, with the slots that `reserve` gave for it.
pub record Follows (k : ℕ) (c : Chunk) (table : List ℕ) (n : ℕ) : Type 0 where
  pub start : c.start ≡ n
  pub prefix : 0 < n → c.prefix_blocks ≡ table
  pub slots : Slots k table n c.positions
  pub enough : length c.positions ≡ length c.tokens

module _ {P A S H M L T B : Type 0} (m : LlamaForCausalLm H P A M L) (tc : Torch P A S)
    (laws : TorchLaws tc) (st : Storage T B S) (k : ℕ) where
  -- The tensors of a layer hold the keys and the values of its tokens so far.
  abbrev pub LayerCached : Option ℕ → DecoderLayer H P A M → List ℕ → T → T → List H → Type 0
  LayerCached lora l table kt vt xs =
      Cached st k kt table
        (map tc.to_float (key_rows tc laws l.self_attn lora 0 (map l.input_layernorm xs)))
      × Cached st k vt table
          (map tc.to_float (v_rows tc l.self_attn lora (map l.input_layernorm xs)))

  -- So for all layers, each on what the one before it gives.
  abbrev pub LayersCached :
      Option ℕ → List (DecoderLayer H P A M) → List ℕ → List T → List T → List H → Type 0
  LayersCached lora [] table ks vs xs = Unit
  LayersCached lora (l ∷ ls) table [] vs xs = ⊥
  LayersCached lora (l ∷ ls) table (kt ∷ ks) [] xs = ⊥
  LayersCached lora (l ∷ ls) table (kt ∷ ks) (vt ∷ vs) xs =
      LayerCached lora l table kt vt xs
      × LayersCached lora ls table ks vs (layer_whole tc laws m lora l xs)

  -- What a layer reads as its prefix, where there is one.
  prefix_read :
      (c : Chunk) (l : DecoderLayer H P A M) (table : List ℕ) (kt vt : T) (x : H) (past : List H)
      → 0 < k
      → Follows k c table (length (x ∷ past))
      → LayerCached c.lora l table kt vt (x ∷ past)
      → prefix_of tc st k c kt vt
        ≡ some (
          map tc.to_float
              (key_rows tc laws l.self_attn c.lora 0 (map l.input_layernorm (x ∷ past))),
          map tc.to_float (v_rows tc l.self_attn c.lora (map l.input_layernorm (x ∷ past))),
        )
  unfolding prefix_of
  prefix_read c l table kt vt x past pos f (keys, values) =
      let some_past : ltb 0 c.start ≡ true = ground (arith, f.start) in
      let hs = map l.input_layernorm (x ∷ past) in
      let size : length hs ≡ c.start = length-map l.input_layernorm (x ∷ past) ∙ sym f.start in
      let key_size = length-float_keys tc laws l.self_attn c.lora hs ∙ size in
      let value_size = length-float_values tc laws l.self_attn c.lora hs ∙ size in
      let block = f.prefix (omega arith) in
      let read_k = gather_slots-Cached st k kt table _ pos keys in
      let read_v = gather_slots-Cached st k vt table _ pos values in
      let keys_back =
        ap (λ b. gather_slots st k kt b c.start) block
        ∙ ap (gather_slots st k kt table) (sym key_size)
        ∙ read_k in
      let values_back =
        ap (λ b. gather_slots st k vt b c.start) block
        ∙ ap (gather_slots st k vt table) (sym value_size)
        ∙ read_v in
      rw (some_past, keys_back, values_back) refl

  prefix_none : (c : Chunk) (kt vt : T) → c.start ≡ 0 → prefix_of tc st k c kt vt ≡ none
  unfolding prefix_of
  prefix_none c kt vt e = rw e refl

  -- A layer that starts from the cache gives the rows of one pass over all tokens.
  layer_with_prefix-rows :
      (c : Chunk) (l : DecoderLayer H P A M) (table : List ℕ) (kt vt : T) (past xs : List H)
      → 0 < k
      → Follows k c table (length past)
      → LayerCached c.lora l table kt vt past
      → (layer_with_prefix m tc st k c l kt vt xs).2
        ≡ layer_after tc laws m c.lora l (length past) (layer_past tc laws m c.lora l past) xs
  unfolding layer_with_prefix attention_with_prefix attend_after
  layer_with_prefix-rows c l table kt vt [] xs pos f h =
      let hs = map l.input_layernorm xs in
      rw (prefix_none c kt vt f.start, f.start)
        (ap (λ rows. after_attention m tc l xs (o_rows tc l.self_attn c.lora rows))
          (attend_after-none tc laws (query_rows tc laws l.self_attn c.lora 0 hs)
            (key_rows tc laws l.self_attn c.lora 0 hs) (v_rows tc l.self_attn c.lora hs)
            (length-v_rows tc laws l.self_attn c.lora 0 hs)
            (length-query_rows tc laws l.self_attn c.lora 0 hs
              ∙ sym (length-key_rows tc laws l.self_attn c.lora 0 hs))))
  layer_with_prefix-rows c l table kt vt (x ∷ past) xs pos f h =
      let hs = map l.input_layernorm xs in
      let past' = map l.input_layernorm (x ∷ past) in
      let n = length (x ∷ past) in
      rw (prefix_read c l table kt vt x past pos f h, f.start)
        (ap (λ rows. after_attention m tc l xs (o_rows tc l.self_attn c.lora rows))
          (attend_after-some tc laws (key_rows tc laws l.self_attn c.lora 0 past')
            (v_rows tc l.self_attn c.lora past') (query_rows tc laws l.self_attn c.lora n hs)
            (key_rows tc laws l.self_attn c.lora n hs) (v_rows tc l.self_attn c.lora hs)
            (length-v_rows tc laws l.self_attn c.lora 0 past')
            (length-v_rows tc laws l.self_attn c.lora n hs)
            (length-query_rows tc laws l.self_attn c.lora n hs
              ∙ sym (length-key_rows tc laws l.self_attn c.lora n hs))))

  -- And it leaves the keys and values of all of them.
  layer_with_prefix-LayerCached :
      (c : Chunk) (l : DecoderLayer H P A M) (table : List ℕ) (kt vt : T) (past xs : List H)
      → 0 < k
      → IsOnce table
      → Follows k c table (length past)
      → length xs ≡ length c.tokens
      → LayerCached c.lora l table kt vt past
      → LayerCached c.lora l table
          (layer_with_prefix m tc st k c l kt vt xs).0
          (layer_with_prefix m tc st k c l kt vt xs).1
          (past ++ xs)
  unfolding layer_with_prefix attention_with_prefix
  layer_with_prefix-LayerCached c l table kt vt past xs pos once f same (keys, values) =
      let ps = map l.input_layernorm past in
      let hs = map l.input_layernorm xs in
      let at = l.self_attn in
      let before : length ps ≡ length past = length-map l.input_layernorm past in
      let tokens : length c.positions ≡ length hs =
        f.enough ∙ sym same ∙ sym (length-map l.input_layernorm xs) in
      let joined = map-append l.input_layernorm past xs in
      let written_keys =
        write_rows-Cached st k tc kt table (map tc.to_float (key_rows tc laws at c.lora 0 ps))
          c.positions (key_rows tc laws at c.lora c.start hs) pos once
          (subst (λ n. Slots k table n c.positions)
            (sym (length-float_keys tc laws at c.lora ps ∙ before)) f.slots)
          (tokens ∙ sym (length-key_rows tc laws at c.lora c.start hs)) keys in
      let written_values =
        write_rows-Cached st k tc vt table (map tc.to_float (v_rows tc at c.lora ps)) c.positions
          (v_rows tc at c.lora hs) pos once
          (subst (λ n. Slots k table n c.positions)
            (sym (length-float_values tc laws at c.lora ps ∙ before)) f.slots)
          (tokens
            ∙ sym (length-v_rows tc laws at c.lora 0 hs ∙ length-key_rows tc laws at c.lora 0 hs))
          values in
      (
        subst (Cached st k _ table)
            (sym (
              ap (λ z. map tc.to_float (key_rows tc laws at c.lora 0 z)) joined
              ∙ float_keys-append tc laws at c.lora ps hs c.start (f.start ∙ sym before)))
            written_keys,
        subst (Cached st k _ table)
            (sym (
              ap (λ z. map tc.to_float (v_rows tc at c.lora z)) joined
              ∙ float_values-append tc laws at c.lora ps hs))
            written_values,
      )

  -- All layers: the rows of one pass, and caches that hold all tokens.
  pub layers_with_prefix-rows :
      (c : Chunk) (ls : List (DecoderLayer H P A M)) (table : List ℕ) (ks vs : List T)
      (past xs : List H)
      → 0 < k
      → IsOnce table
      → Follows k c table (length past)
      → length xs ≡ length c.tokens
      → LayersCached c.lora ls table ks vs past
      → (layers_whole tc laws m c.lora ls (past ++ xs)
          ≡ layers_whole tc laws m c.lora ls past ++ (layers_with_prefix m tc st k c ls ks vs xs).2)
        × LayersCached c.lora ls table
            (layers_with_prefix m tc st k c ls ks vs xs).0
            (layers_with_prefix m tc st k c ls ks vs xs).1
            (past ++ xs)
  unfolding layers_with_prefix layers_whole
  layers_with_prefix-rows c [] table ks vs past xs pos once f same h = (refl, tt)
  layers_with_prefix-rows c (l ∷ ls) table [] vs past xs pos once f same h = elim h [ ]
  layers_with_prefix-rows c (l ∷ ls) table (kt ∷ ks) [] past xs pos once f same h = elim h [ ]
  layers_with_prefix-rows c (l ∷ ls) table (kt ∷ ks) (vt ∷ vs) past xs pos once f same
        (here, behind) =
      let ys = (layer_with_prefix m tc st k c l kt vt xs).2 in
      let past' = layer_whole tc laws m c.lora l past in
      let rows : layer_whole tc laws m c.lora l (past ++ xs) ≡ past' ++ ys =
        layer_whole-append tc laws m c.lora l past xs
        ∙ ap (λ z. past' ++ z) (sym (layer_with_prefix-rows c l table kt vt past xs pos f here)) in
      let (rest, cached) =
        layers_with_prefix-rows c ls table ks vs past' ys pos once
          (subst (Follows k c table) (sym (length-layer_after tc laws m c.lora l 0 [] past)) f)
          (ap length (layer_with_prefix-rows c l table kt vt past xs pos f here)
            ∙ length-layer_after tc laws m c.lora l (length past)
                (layer_past tc laws m c.lora l past) xs
            ∙ same)
          behind in
      (
        ap (layers_whole tc laws m c.lora ls) rows ∙ rest,
        (
          layer_with_prefix-LayerCached c l table kt vt past xs pos once f same here,
          subst (LayersCached c.lora ls table _ _) (sym rows) cached,
        ),
      )
