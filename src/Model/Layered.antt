-- ===== src/Model/Layered.antt =====
-- continue_prefill of src/wllm/models/llama.py, the calls of the cache and the layers together.
pub mod Prompt
use w_llm.Base.{
  ℕ, ◌+◌, ◌*◌, ◌≤◌, ◌<◌, ◌≡◌, refl, ◌∙◌, sym, ap, subst, ◌⊎◌, inl, inr, Option, some, List, [],
  ◌++◌, map, length, length-append, ltb, arith, if◌then◌else◌,
}
use w_llm.Base.Int.{ℤ, int_eq, int_beq_iff}
use w_llm.Base.Dict.{get, put, get-put}
use w_llm.Base.Outcome.{Result, ok, err, out_of_memory, ◌>>◌, pure}
use w_llm.Kv.Manager.{SequenceState, state_of}
use w_llm.Kv.Slots.{reserve, advance}
use w_llm.Kv.Ownership.{Inv}
use w_llm.Kv.Ownership.Reserve.{reserve-Reserved, Slots}
use w_llm.Runtime.{Runtime, Chunk}
use w_llm.Model.{Cache, continue_prefill}
use w_llm.Model.Prefill.{advance_run}
use w_llm.Llama.{Torch, LlamaForCausalLm, run_chunk, embed}
use w_llm.Llama.Cached.{IsOnce}
use w_llm.Llama.Causal.{TorchLaws}
use w_llm.Llama.Spec.{forward_with}
use w_llm.Llama.Prefill.{Follows, LayersCached}
use w_llm.Llama.Chunks.{run_chunk-forward_with, LayersCached-grow}

module _ (rt : Runtime) {P A H M L : Type 0} (m : LlamaForCausalLm H P A M L)
    (tc : Torch P A rt.Slot) (laws : TorchLaws tc) (rows_of : rt.Logits → List L) where
  -- The forward pass of a chunk is that of the layers.
  abbrev pub RunsLayers : ℕ → Type 0
  RunsLayers k =
      (ks vs : List rt.Tensor) (c : Chunk)
      → ((rt.run_chunk ks vs c).0 ≡ (run_chunk m tc rt.storage k ks vs c).0)
        × ((rt.run_chunk ks vs c).1 ≡ (run_chunk m tc rt.storage k ks vs c).1)
        × (rows_of (rt.run_chunk ks vs c).2 ≡ (run_chunk m tc rt.storage k ks vs c).2)

  -- The cache holds a sequence's tokens so far: their keys and values in every layer, in blocks of which
  -- none stands twice in the block table.
  pub record Holds (c : Cache rt) (id : ℤ) (lora : Option ℕ) (past : List ℕ) : Type 0 where
    pub state : SequenceState
    pub found : get c.sequences id ≡ some state
    pub context : state.context_len ≡ length past
    pub covered : state.context_len ≤ length state.block_table * c.block_size
    pub once : IsOnce state.block_table
    pub cached :
        LayersCached m tc laws rt.storage c.block_size lora m.layers state.block_table c.k_caches
          c.v_caches
          (map (embed m tc) past)

  -- The logits of the tokens past the ones before, and a cache that holds them all; or out of memory.
  abbrev pub Continued : ℤ → Option ℕ → List ℕ → List ℕ → Result rt.Logits × Cache rt → Type 0
  Continued id lora past chunk r =
      ((logits : rt.Logits) × (r.0 ≡ ok logits)
        × (forward_with tc laws m lora (past ++ chunk)
            ≡ forward_with tc laws m lora past ++ rows_of logits)
        × Holds r.1 id lora (past ++ chunk))
      ⊎ (r.0 ≡ err out_of_memory)

  -- The count of the chunk's tokens, after its layers have run.
  counted :
      (c : Cache rt) (id : ℤ) (lora : Option ℕ) (past chunk : List ℕ) (s : SequenceState)
      (logits : rt.Logits)
      → get c.sequences id ≡ some s
      → s.context_len ≡ length past
      → length past + length chunk ≤ length s.block_table * c.block_size
      → IsOnce s.block_table
      → LayersCached m tc laws rt.storage c.block_size lora m.layers s.block_table c.k_caches
          c.v_caches
          (map (embed m tc) (past ++ chunk))
      → forward_with tc laws m lora (past ++ chunk)
        ≡ forward_with tc laws m lora past ++ rows_of logits
      → Continued id lora past chunk ((advance id (length chunk) >> pure logits) c)
  counted c id lora past chunk s logits found context room once cached rows =
      let s' : SequenceState = record s { context_len = s.context_len + length chunk } in
      rw (advance_run c id s (length chunk) found) (
        inl (
          logits,
          refl,
          rows,
          record {
            state = s';
            found = ground (arith, get-put c.sequences id id s', int_beq_iff id id);
            context = omega (arith, context, length-append past chunk);
            covered = omega (arith, context, room);
            once = once;
            cached = cached;
          },
        ))

  -- A chunk continues a sequence whose tokens the cache holds. The engine's forward pass is that of the
  -- layers, PyTorch does what it documents, and the cache has its books in order and blocks of at least one
  -- slot. Unless memory runs out, the logits are the last ones of one pass over all tokens, and the cache
  -- then holds them all.
  pub continue_prefill-Continued :
      (c : Cache rt) (id : ℤ) (lora : Option ℕ) (past chunk : List ℕ)
      → 0 < c.block_size
      → RunsLayers c.block_size
      → Inv c
      → Holds c id lora past
      → Continued id lora past chunk (continue_prefill rt id chunk lora c)
  unfolding continue_prefill
  continue_prefill-Continued c id lora past chunk sz runs v h =
      let s = h.state in
      let k = c.block_size in
      let res = reserve-Reserved c id s (length chunk) h.found h.covered sz v in
      let c₁ = (reserve id (length chunk) c).1 in
      let s₁ = res.state in
      let found : get c₁.sequences id ≡ some s₁ =
        ground (arith, res.grown.states id, int_beq_iff id id) in
      elim res.outcome [
        | inr (fails, _, _) ↦ rw (h.found, state_of) (rw fails (inr refl))
        | inl (ps, done, long, room, slots) ↦
            let here : Chunk = record {
              tokens = chunk;
              start = s.context_len;
              prefix_blocks = if ltb 0 s.context_len then s₁.block_table else [];
              positions = ps;
              lora = lora;
            } in
            let follows : Follows k here s₁.block_table (length past) = record {
              start = h.context;
              prefix = λ some_past. ground (arith, h.context);
              slots = subst (λ n. Slots k s₁.block_table n ps) h.context slots;
              enough = long;
            } in
            let before : LayersCached m tc laws rt.storage k lora m.layers s₁.block_table
                c₁.k_caches c₁.v_caches (map (embed m tc) past) =
              subst
                (λ t.
                  LayersCached m tc laws rt.storage k lora m.layers t c₁.k_caches c₁.v_caches
                    (map (embed m tc) past))
                (sym res.grown.table)
                (subst
                  (λ ks.
                    LayersCached m tc laws rt.storage k lora m.layers (s.block_table ++ res.ext) ks
                      c₁.v_caches (map (embed m tc) past))
                  (sym res.grown.keys)
                  (subst
                    (λ vs.
                      LayersCached m tc laws rt.storage k lora m.layers (s.block_table ++ res.ext)
                        c.k_caches vs (map (embed m tc) past))
                    (sym res.grown.values)
                    (LayersCached-grow m tc laws rt.storage k lora m.layers s.block_table res.ext
                      c.k_caches c.v_caches _ h.cached))) in
            let (rows, cached) =
              run_chunk-forward_with m tc laws rt.storage k here s₁.block_table c₁.k_caches
                c₁.v_caches past sz (res.grown.once h.once) follows before in
            let (keys, values, logits) = runs c₁.k_caches c₁.v_caches here in
            let out = rt.run_chunk c₁.k_caches c₁.v_caches here in
            let after = run_chunk m tc rt.storage k c₁.k_caches c₁.v_caches here in
            let table = s₁.block_table in
            let tokens = map (embed m tc) (past ++ chunk) in
            let full =
              subst (λ n. length past + length chunk ≤ length table * n) (sym res.grown.size)
                (omega (arith, room, h.context)) in
            let held =
              subst
                (λ n. LayersCached m tc laws rt.storage n lora m.layers table out.0 out.1 tokens)
                (sym res.grown.size)
                (subst
                  (λ ks. LayersCached m tc laws rt.storage k lora m.layers table ks out.1 tokens)
                  (sym keys)
                  (subst
                    (λ vs.
                      LayersCached m tc laws rt.storage k lora m.layers table after.0 vs tokens)
                    (sym values) cached)) in
            rw (h.found, state_of)
              (rw done (
                rw (found, state_of)
                  (counted _ id lora past chunk s₁ _ found (res.grown.context ∙ h.context) full
                    (res.grown.once h.once) held
                    (rows ∙ ap (λ z. forward_with tc laws m lora past ++ z) (sym logits)))))
      ]
