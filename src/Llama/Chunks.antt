-- ===== src/Llama/Chunks.antt =====
-- Chunked prefill of src/wllm/models/llama.py: however a prompt is cut, its logits are those of one pass.
use w_llm.Base.{
  ℕ, ◌+◌, ◌/◌, ◌<◌, ◌≡◌, ◌∙◌, sym, ap, subst, Option, List, [], ◌∷◌, ◌++◌, map, length,
  length-append, get_elem?-append_left, lt_of_get_elem?, arith,
}
use mathlib.Core.List.{map-append, append_assoc, append-nil}
use w_llm.Kv.Storage.{Storage}
use w_llm.Runtime.{Chunk}
use w_llm.Llama.{
  Torch, DecoderLayer, LlamaForCausalLm, run_chunk, embed, compute_logits, layers_with_prefix,
  rotated,
}
use w_llm.Llama.Cached.{IsOnce, Cached}
use w_llm.Llama.Causal.{TorchLaws}
use w_llm.Llama.Spec.{layers_whole, forward_with}
use w_llm.Llama.Rows.{length-map}
use w_llm.Llama.Prefill.{LayersCached, Follows, layers_with_prefix-rows}

-- Chunks that follow one another from position `n` on, with a block table that grows by what `reserve` takes.
abbrev pub Consecutive : ℕ → Option ℕ → List ℕ → ℕ → List Chunk → Type 0
Consecutive k lora table n [] = Unit
Consecutive k lora table n (c ∷ cs) =
    (ext : List ℕ) × IsOnce (table ++ ext)
    × Follows k c (table ++ ext) n
    × (c.lora ≡ lora)
    × Consecutive k lora (table ++ ext) (n + length c.tokens) cs

abbrev pub tokens_of : List Chunk → List ℕ
tokens_of [] = []
tokens_of (c ∷ cs) = c.tokens ++ tokens_of cs

module _ {P A S H M L T B : Type 0} (m : LlamaForCausalLm H P A M L) (tc : Torch P A S)
    (st : Storage T B S) (k : ℕ) where
  -- The chunks one after another, each on the tensors that the one before it left; their logits in a row.
  abbrev pub run_chunks : List T → List T → List Chunk → List L
  run_chunks ks vs [] = []
  run_chunks ks vs (c ∷ cs) =
      let (ks', vs', logits) = run_chunk m tc st k ks vs c in logits ++ run_chunks ks' vs' cs

module _ {P A S H M L T B : Type 0} (m : LlamaForCausalLm H P A M L) (tc : Torch P A S)
    (laws : TorchLaws tc) (st : Storage T B S) (k : ℕ) where
  -- A chunk that follows tokens whose keys and values the tensors hold, in the slots that continue the
  -- block table, in which no block stands twice. Its logits are the last ones of one pass over all tokens,
  -- and the tensors then hold the keys and values of all tokens.
  pub run_chunk-forward_with :
      (c : Chunk) (table : List ℕ) (ks vs : List T) (past : List ℕ)
      → 0 < k
      → IsOnce table
      → Follows k c table (length past)
      → LayersCached m tc laws st k c.lora m.layers table ks vs (map (embed m tc) past)
      → (forward_with tc laws m c.lora (past ++ c.tokens)
          ≡ forward_with tc laws m c.lora past ++ (run_chunk m tc st k ks vs c).2)
        × LayersCached m tc laws st k c.lora m.layers table
            (run_chunk m tc st k ks vs c).0
            (run_chunk m tc st k ks vs c).1
            (map (embed m tc) (past ++ c.tokens))
  unfolding run_chunk forward_with
  run_chunk-forward_with c table ks vs past pos once f h =
      let xs = map (embed m tc) past in
      let ys = map (embed m tc) c.tokens in
      let (rows, cached) =
        layers_with_prefix-rows m tc laws st k c m.layers table ks vs xs ys pos once
          (subst (Follows k c table) (sym (length-map (embed m tc) past)) f)
          (length-map (embed m tc) c.tokens) h in
      let joined = map-append (embed m tc) past c.tokens in
      let out = (layers_with_prefix m tc st k c m.layers ks vs ys).2 in
      let logits = λ (zs : List H). map (compute_logits m tc) (map m.norm zs) in
      (
        ap (λ zs. logits (layers_whole tc laws m c.lora m.layers zs)) joined
            ∙ ap logits rows
            ∙ ap (map (compute_logits m tc))
                (map-append m.norm (layers_whole tc laws m c.lora m.layers xs) out)
            ∙ map-append (compute_logits m tc)
                (map m.norm (layers_whole tc laws m c.lora m.layers xs)) (map m.norm out),
        subst (LayersCached m tc laws st k c.lora m.layers table _ _) (sym joined) cached,
      )

  -- A block table that grows keeps its tokens where they are.
  Cached-grow :
      (t : T) (table ext : List ℕ) (rows : List S)
      → Cached st k t table rows
      → Cached st k t (table ++ ext) rows
  Cached-grow t table ext rows h p r e =
      let (b, at, read) = h p r e in
      (b, get_elem?-append_left table ext (p / k) (lt_of_get_elem? table (p / k) at) ∙ at, read)

  pub LayersCached-grow :
      (lora : Option ℕ) (ls : List (DecoderLayer H P A M)) (table ext : List ℕ) (ks vs : List T)
      (xs : List H)
      → LayersCached m tc laws st k lora ls table ks vs xs
      → LayersCached m tc laws st k lora ls (table ++ ext) ks vs xs
  LayersCached-grow lora [] table ext ks vs xs h = tt
  LayersCached-grow lora (l ∷ ls) table ext [] vs xs h = elim h [ ]
  LayersCached-grow lora (l ∷ ls) table ext (kt ∷ ks) [] xs h = elim h [ ]
  LayersCached-grow lora (l ∷ ls) table ext (kt ∷ ks) (vt ∷ vs) xs ((keys, values), behind) = (
    (Cached-grow kt table ext _ keys, Cached-grow vt table ext _ values),
    LayersCached-grow lora ls table ext ks vs _ behind,
  )

  -- Nothing is cached of no tokens.
  pub LayersCached-nil :
      (lora : Option ℕ) (ls : List (DecoderLayer H P A M)) (table : List ℕ) (ks vs : List T)
      → length ks ≡ length ls
      → length vs ≡ length ls
      → LayersCached m tc laws st k lora ls table ks vs []
  unfolding rotated
  LayersCached-nil lora [] table ks vs p q = tt
  LayersCached-nil lora (l ∷ ls) table [] vs p q = absurd (omega (arith, p))
  LayersCached-nil lora (l ∷ ls) table (kt ∷ ks) [] p q = absurd (omega (arith, q))
  LayersCached-nil lora (l ∷ ls) table (kt ∷ ks) (vt ∷ vs) p q = (
    (λ i r e. absurd (cc), λ i r e. absurd (cc)),
    LayersCached-nil lora ls table ks vs (omega (arith, p)) (omega (arith, q)),
  )

  pub run_chunks-forward_with :
      (lora : Option ℕ) (cs : List Chunk) (table : List ℕ) (ks vs : List T) (past : List ℕ)
      → 0 < k
      → Consecutive k lora table (length past) cs
      → LayersCached m tc laws st k lora m.layers table ks vs (map (embed m tc) past)
      → forward_with tc laws m lora (past ++ tokens_of cs)
        ≡ forward_with tc laws m lora past ++ run_chunks m tc st k ks vs cs
  run_chunks-forward_with lora [] table ks vs past pos follow h =
      ap (forward_with tc laws m lora) (append-nil past)
      ∙ sym (append-nil (forward_with tc laws m lora past))
  run_chunks-forward_with lora (c ∷ cs) table ks vs past pos (ext, once, f, same, follow) h =
      let table' = table ++ ext in
      let r = run_chunk m tc st k ks vs c in
      let grown = LayersCached-grow lora m.layers table ext ks vs (map (embed m tc) past) h in
      let (rows, cached) = run_chunk-forward_with c table' ks vs past pos once f (
        subst (λ a. LayersCached m tc laws st k a m.layers table' ks vs (map (embed m tc) past))
          (sym same) grown) in
      let rest =
        run_chunks-forward_with lora cs table' r.0 r.1 (past ++ c.tokens) pos
          (subst (λ n. Consecutive k lora table' n cs) (sym (length-append past c.tokens)) follow)
          (subst
            (λ a.
              LayersCached m tc laws st k a m.layers table' r.0 r.1
                (map (embed m tc) (past ++ c.tokens)))
            same cached) in
      let rows' =
        subst
          (λ a. forward_with tc laws m a (past ++ c.tokens) ≡ forward_with tc laws m a past ++ r.2)
          same rows in
      ap (forward_with tc laws m lora) (sym (append_assoc past c.tokens (tokens_of cs)))
      ∙ rest
      ∙ ap (λ z. z ++ run_chunks m tc st k r.0 r.1 cs) rows'
      ∙ append_assoc (forward_with tc laws m lora past) r.2 (run_chunks m tc st k r.0 r.1 cs)
