-- ===== src/Llama/Spec.antt =====
-- The layers of src/wllm/models/llama.py with an adapter, as a function of all tokens so far: the reference for the
-- passes that start from a cache.
use w_llm.Base.{ℕ, suc, ◌≡◌, refl, ◌∙◌, sym, ap, Option, List, [], ◌∷◌, ◌++◌, map, length, arith}
use mathlib.Core.List.{map-append}
use w_llm.Base.Table.{zip_with}
use w_llm.Llama.{
  Torch, Attention, DecoderLayer, LlamaForCausalLm, rotated, q_rows, k_rows, v_rows, o_rows,
  after_attention, embed, compute_logits, feed_forward,
}
use w_llm.Llama.Causal.{TorchLaws, causal_rows, causal_rows-append}
use w_llm.Llama.Rows.{length-map, length-zip_with, zip_with-append, length-rotated, rotated-append}

pub length-causal_rows :
    {P A : Type 0} (attend : P → List (P × P) → A) (past : List (P × P)) (qs : List P)
    (kvs : List (P × P))
    → length kvs ≡ length qs
    → length (causal_rows attend past qs kvs) ≡ length qs
length-causal_rows attend past [] kvs h = refl
length-causal_rows attend past (q ∷ qs) [] h = absurd (omega (arith, h))
length-causal_rows attend past (q ∷ qs) (kv ∷ kvs) h =
    ap suc (length-causal_rows attend (past ++ kv ∷ []) qs kvs (omega (arith, h)))

module _ {P A S : Type 0} (tc : Torch P A S) where
  abbrev pub pairs : List P → List P → List (P × P)
  pairs ks vs = zip_with (λ k v. (k, v)) (map tc.repeat_kv ks) (map tc.repeat_kv vs)

  pub length-pairs : (ks vs : List P) → length vs ≡ length ks → length (pairs ks vs) ≡ length ks
  length-pairs ks vs h =
      length-zip_with _ (map tc.repeat_kv ks) (map tc.repeat_kv vs)
        (length-map tc.repeat_kv vs ∙ h ∙ sym (length-map tc.repeat_kv ks))
      ∙ length-map tc.repeat_kv ks

  pub pairs-append :
      (ks ks' vs vs' : List P)
      → length vs ≡ length ks
      → pairs (ks ++ ks') (vs ++ vs') ≡ pairs ks vs ++ pairs ks' vs'
  pairs-append ks ks' vs vs' h =
      rw (map-append tc.repeat_kv ks ks', map-append tc.repeat_kv vs vs')
        (zip_with-append (λ k v. (k, v)) (map tc.repeat_kv ks) (map tc.repeat_kv ks')
          (map tc.repeat_kv vs) (map tc.repeat_kv vs')
          (length-map tc.repeat_kv vs ∙ h ∙ sym (length-map tc.repeat_kv ks)))

module _ {P A S : Type 0} (tc : Torch P A S) (laws : TorchLaws tc) where
  module _ {H : Type 0} (at : Attention H P A) (lora : Option ℕ) where
    abbrev pub key_rows : ℕ → List H → List P
    key_rows pos xs = rotated tc pos (k_rows tc at lora xs)

    abbrev pub query_rows : ℕ → List H → List P
    query_rows pos xs = rotated tc pos (q_rows tc at lora xs)

    abbrev pub kv_rows : ℕ → List H → List (P × P)
    kv_rows pos xs = pairs tc (key_rows pos xs) (v_rows tc at lora xs)

    -- Each token attends to what is past and to the new tokens up to its own.
    abbrev pub attended : ℕ → List (P × P) → List H → List H
    attended pos past xs =
        o_rows tc at lora (causal_rows laws.attend past (query_rows pos xs) (kv_rows pos xs))

    pub length-key_rows : (pos : ℕ) (xs : List H) → length (key_rows pos xs) ≡ length xs
    length-key_rows pos xs = length-rotated tc pos _ ∙ length-map _ xs

    pub length-query_rows : (pos : ℕ) (xs : List H) → length (query_rows pos xs) ≡ length xs
    length-query_rows pos xs = length-rotated tc pos _ ∙ length-map _ xs

    pub length-kv_rows : (pos : ℕ) (xs : List H) → length (kv_rows pos xs) ≡ length xs
    length-kv_rows pos xs =
        length-pairs tc (key_rows pos xs) (v_rows tc at lora xs)
          (length-map _ xs ∙ sym (length-key_rows pos xs))
        ∙ length-key_rows pos xs

    length-attended :
        (pos : ℕ) (past : List (P × P)) (xs : List H) → length (attended pos past xs) ≡ length xs
    length-attended pos past xs =
        length-map _ (causal_rows laws.attend past (query_rows pos xs) (kv_rows pos xs))
        ∙ length-causal_rows laws.attend past (query_rows pos xs) (kv_rows pos xs)
            (length-kv_rows pos xs ∙ sym (length-query_rows pos xs))
        ∙ length-query_rows pos xs

    rotated-map-append :
        (f : H → P) (xs ys : List H)
        → rotated tc 0 (map f (xs ++ ys))
          ≡ rotated tc 0 (map f xs) ++ rotated tc (length xs) (map f ys)
    rotated-map-append f xs ys = rw (map-append f xs ys) (
        rotated-append tc 0 (map f xs) (map f ys)
        ∙ ap (λ n. rotated tc 0 (map f xs) ++ rotated tc n (map f ys))
            (omega (arith, length-map f xs)))

    pub key_rows-append :
        (xs ys : List H) → key_rows 0 (xs ++ ys) ≡ key_rows 0 xs ++ key_rows (length xs) ys
    key_rows-append xs ys = rotated-map-append (λ x. at.k_delta lora x (at.k_proj x)) xs ys

    query_rows-append :
        (xs ys : List H) → query_rows 0 (xs ++ ys) ≡ query_rows 0 xs ++ query_rows (length xs) ys
    query_rows-append xs ys = rotated-map-append (λ x. at.q_delta lora x (at.q_proj x)) xs ys

    pub v_rows-append :
        (xs ys : List H)
        → v_rows tc at lora (xs ++ ys) ≡ v_rows tc at lora xs ++ v_rows tc at lora ys
    v_rows-append xs ys = map-append (λ x. at.v_delta lora x (at.v_proj x)) xs ys

    pub length-v_rows :
        (pos : ℕ) (xs : List H) → length (v_rows tc at lora xs) ≡ length (key_rows pos xs)
    length-v_rows pos xs = length-map _ xs ∙ sym (length-key_rows pos xs)

    kv_rows-append :
        (xs ys : List H) → kv_rows 0 (xs ++ ys) ≡ kv_rows 0 xs ++ kv_rows (length xs) ys
    kv_rows-append xs ys =
        rw (key_rows-append xs ys, v_rows-append xs ys)
          (pairs-append tc (key_rows 0 xs) (key_rows (length xs) ys) (v_rows tc at lora xs)
            (v_rows tc at lora ys) (length-v_rows 0 xs))

    -- What the tokens behind a prefix attend to, all at once or after it.
    pub attended-append :
        (xs ys : List H)
        → attended 0 [] (xs ++ ys) ≡ attended 0 [] xs ++ attended (length xs) (kv_rows 0 xs) ys
    attended-append xs ys =
        rw (query_rows-append xs ys, kv_rows-append xs ys)
          (ap (o_rows tc at lora) (
              causal_rows-append laws.attend [] (query_rows 0 xs) (query_rows (length xs) ys)
                (kv_rows 0 xs) (kv_rows (length xs) ys)
                (length-kv_rows 0 xs ∙ sym (length-query_rows 0 xs)))
            ∙ map-append (λ a. at.o_delta lora a (at.o_proj a))
                (causal_rows laws.attend [] (query_rows 0 xs) (kv_rows 0 xs))
                (causal_rows laws.attend (kv_rows 0 xs) (query_rows (length xs) ys)
                  (kv_rows (length xs) ys)))

  module _ {H M L : Type 0} (m : LlamaForCausalLm H P A M L) (lora : Option ℕ) where
    -- One layer, on the tokens from position `pos` on, behind what is past; and on all of them.
    abbrev pub layer_after : DecoderLayer H P A M → ℕ → List (P × P) → List H → List H
    layer_after l pos past xs =
        after_attention m tc l xs (attended l.self_attn lora pos past (map l.input_layernorm xs))

    abbrev pub layer_whole : DecoderLayer H P A M → List H → List H
    layer_whole l xs = layer_after l 0 [] xs

    abbrev pub layer_past : DecoderLayer H P A M → List H → List (P × P)
    layer_past l xs = kv_rows l.self_attn lora 0 (map l.input_layernorm xs)

    pub length-layer_after :
        (l : DecoderLayer H P A M) (pos : ℕ) (past : List (P × P)) (xs : List H)
        → length (layer_after l pos past xs) ≡ length xs
    length-layer_after l pos past xs =
        let us = attended l.self_attn lora pos past (map l.input_layernorm xs) in
        length-map (feed_forward m tc l) (zip_with m.add xs us)
        ∙ length-zip_with m.add xs us (
            length-attended l.self_attn lora pos past (map l.input_layernorm xs)
            ∙ length-map l.input_layernorm xs)

    pub layer_whole-append :
        (l : DecoderLayer H P A M) (xs ys : List H)
        → layer_whole l (xs ++ ys)
          ≡ layer_whole l xs ++ layer_after l (length xs) (layer_past l xs) ys
    layer_whole-append l xs ys =
        let us = attended l.self_attn lora 0 [] (map l.input_layernorm xs) in
        let vs =
          attended l.self_attn lora (length xs) (layer_past l xs) (map l.input_layernorm ys) in
        let split : attended l.self_attn lora 0 [] (map l.input_layernorm (xs ++ ys)) ≡ us ++ vs =
          ap (attended l.self_attn lora 0 []) (map-append l.input_layernorm xs ys)
          ∙ attended-append l.self_attn lora (map l.input_layernorm xs) (map l.input_layernorm ys)
          ∙ ap (λ n. us ++ attended l.self_attn lora n (layer_past l xs) (map l.input_layernorm ys))
              (length-map l.input_layernorm xs) in
        let same : length us ≡ length xs =
          length-attended l.self_attn lora 0 [] _ ∙ length-map l.input_layernorm xs in
        rw split (
          ap (map (feed_forward m tc l)) (zip_with-append m.add xs ys us vs same)
          ∙ map-append (feed_forward m tc l) (zip_with m.add xs us) (zip_with m.add ys vs))

    -- All layers, and the logits.
    unfoldable pub layers_whole : List (DecoderLayer H P A M) → List H → List H
    layers_whole [] xs = xs
    layers_whole (l ∷ ls) xs = layers_whole ls (layer_whole l xs)

    unfoldable pub forward_with : List ℕ → List L
    unfolding layers_whole
    forward_with tokens =
        map (compute_logits m tc) (map m.norm (layers_whole m.layers (map (embed m tc) tokens)))
