-- ===== src/Llama/Attend.antt =====
-- The attention of src/wllm/models/llama.py behind cached keys and values, as causal attention token by token.
use w_llm.Base.{ℕ, ◌≡◌, refl, ◌∙◌, sym, ap, Option, none, some, List, [], ◌∷◌, ◌++◌, map, length}
use mathlib.Core.List.{map-append, append-nil}
use w_llm.Llama.{Torch, Attention, v_rows, attend_after, prefix_mask}
use w_llm.Llama.Causal.{TorchLaws, causal_rows, masked_rows-prefix_mask, masked_rows}
use w_llm.Llama.Rows.{length-map}
use w_llm.Llama.Spec.{
  key_rows, pairs, length-pairs, key_rows-append, v_rows-append, pairs-append, length-key_rows,
  length-v_rows,
}

module _ {P A S : Type 0} (tc : Torch P A S) (laws : TorchLaws tc) where
  floats_back : (ps : List P) → map tc.of_float (map tc.to_float ps) ≡ ps
  floats_back [] = refl
  floats_back (p ∷ ps) = rw (laws.of_float-to_float p, floats_back ps) refl

  module _ {H : Type 0} (at : Attention H P A) (lora : Option ℕ) where
    pub length-float_keys :
        (xs : List H) → length (map tc.to_float (key_rows tc laws at lora 0 xs)) ≡ length xs
    length-float_keys xs =
        length-map tc.to_float (key_rows tc laws at lora 0 xs)
        ∙ length-key_rows tc laws at lora 0 xs

    pub length-float_values :
        (xs : List H) → length (map tc.to_float (v_rows tc at lora xs)) ≡ length xs
    length-float_values xs =
        length-map tc.to_float (v_rows tc at lora xs)
        ∙ length-v_rows tc laws at lora 0 xs
        ∙ length-key_rows tc laws at lora 0 xs

    pub float_keys-append :
        (xs ys : List H) (n : ℕ)
        → n ≡ length xs
        → map tc.to_float (key_rows tc laws at lora 0 (xs ++ ys))
          ≡ map tc.to_float (key_rows tc laws at lora 0 xs)
            ++ map tc.to_float (key_rows tc laws at lora n ys)
    float_keys-append xs ys n e =
        ap (map tc.to_float) (key_rows-append tc laws at lora xs ys)
        ∙ map-append tc.to_float (key_rows tc laws at lora 0 xs)
            (key_rows tc laws at lora (length xs) ys)
        ∙ ap
            (λ i.
              map tc.to_float (key_rows tc laws at lora 0 xs)
              ++ map tc.to_float (key_rows tc laws at lora i ys))
            (sym e)

    pub float_values-append :
        (xs ys : List H)
        → map tc.to_float (v_rows tc at lora (xs ++ ys))
          ≡ map tc.to_float (v_rows tc at lora xs) ++ map tc.to_float (v_rows tc at lora ys)
    float_values-append xs ys =
        ap (map tc.to_float) (v_rows-append tc laws at lora xs ys)
        ∙ map-append tc.to_float (v_rows tc at lora xs) (v_rows tc at lora ys)

  -- With nothing cached.
  pub attend_after-none :
      (q k v : List P)
      → length v ≡ length k
      → length q ≡ length k
      → attend_after tc none q k v ≡ causal_rows laws.attend [] q (pairs tc k v)
  unfolding attend_after
  attend_after-none q k v same same' =
      let ks = map tc.repeat_kv k in
      let vs = map tc.repeat_kv v in
      let size : length ks ≡ length (pairs tc k v) =
        length-map tc.repeat_kv k ∙ sym (length-pairs tc k v same) in
      laws.sdpa-causal q ks vs
      ∙ laws.sdpa-masked (prefix_mask 0 (length ks) 0 (length q)) q ks vs
      ∙ ap (λ n. masked_rows laws.attend (prefix_mask 0 n 0 (length q)) q (pairs tc k v)) size
      ∙ masked_rows-prefix_mask laws.attend [] [] q (pairs tc k v)
          (length-pairs tc k v same ∙ sym same')

  -- Behind cached keys and values.
  pub attend_after-some :
      (pk pv q k v : List P)
      → length pv ≡ length pk
      → length v ≡ length k
      → length q ≡ length k
      → attend_after tc (some (map tc.to_float pk, map tc.to_float pv)) q k v
        ≡ causal_rows laws.attend (pairs tc pk pv) q (pairs tc k v)
  unfolding attend_after
  attend_after-some pk pv q k v past same same' =
      let all_k = map tc.repeat_kv (pk ++ k) in
      let all_v = map tc.repeat_kv (pv ++ v) in
      let before : length (map tc.to_float pk) ≡ length (pairs tc pk pv) =
        length-map tc.to_float pk ∙ sym (length-pairs tc pk pv past) in
      let new : length q ≡ length (pairs tc k v) = same' ∙ sym (length-pairs tc k v same) in
      let masked = λ (n size : ℕ) (kvs : List (P × P)).
        masked_rows laws.attend (prefix_mask n size 0 (length q)) q kvs in
      rw (floats_back pk, floats_back pv, attend_after)
        (laws.sdpa-masked (prefix_mask (length (map tc.to_float pk)) (length q) 0 (length q)) q
            all_k all_v
          ∙ ap (masked (length (map tc.to_float pk)) (length q)) (pairs-append tc pk k pv v past)
          ∙ ap (λ n. masked n (length q) (pairs tc pk pv ++ pairs tc k v)) before
          ∙ ap (λ n. masked (length (pairs tc pk pv)) n (pairs tc pk pv ++ pairs tc k v)) new
          ∙ masked_rows-prefix_mask laws.attend (pairs tc pk pv) [] q (pairs tc k v) (sym new)
          ∙ ap (λ past. causal_rows laws.attend past q (pairs tc k v))
              (append-nil (pairs tc pk pv)))
