-- ===== src/Model/Prefill.antt =====
-- The prefills of src/wllm/models/llama.py: what the layers are run on, and what the cache then counts.
pub mod Reuse
use w_llm.Base.{
  ℕ, ◌+◌, ◌*◌, ◌/◌, ◌≤◌, ◌<◌, ◌≡◌, refl, ◌∙◌, sym, ap, subst, ◌⊎◌, inl, inr, none, some, Option,
  List, [], ◌∷◌, ◌++◌, length, length-drop, drop, arith, ltb, if◌then◌else◌,
}
use w_llm.Base.Int.{ℤ, int_eq, int_beq_iff}
use w_llm.Base.Dict.{get, put, get-put}
use w_llm.Base.Outcome.{Result, ok, err, out_of_memory, ◌>>◌, pure}
use w_llm.Kv.Manager.{
  Manager, SequenceState, state_of, create_sequence, create_sequence_from_prefix,
}
use w_llm.Kv.Slots.{reserve, advance}
use w_llm.Kv.Prefix.{match_prefix, register_prefix_blocks}
use w_llm.Kv.Ownership.{Inv, started_at, create_sequence-Inv, context-Inv}
use w_llm.Kv.Ownership.Grown.{Grown}
use w_llm.Kv.Ownership.Reserve.{Slots, reserve-Reserved, div_bound}
use w_llm.Kv.Ownership.Prefix.{
  match_prefix-create, register_prefix_blocks-Inv, register_prefix_blocks_size,
}
use w_llm.Runtime.{Runtime, Chunk}
use w_llm.Model.{Cache, continue_prefill, create_matching, prefill_with_cache_and_prefix_reuse}

caches-Inv :
    {T B : Type 0} (m : Manager T B) (ks vs : List T)
    → Inv m
    → Inv (record m { k_caches = ks; v_caches = vs })
caches-Inv m ks vs v = record {
  books = record { owned = v.books.owned; indexed = v.books.indexed; live = v.books.live };
  distinct = v.distinct;
}

pub advance_run :
    {T B : Type 0} (m : Manager T B) (id : ℤ) (s : SequenceState) (n : ℕ)
    → get m.sequences id ≡ some s
    → advance id n m ≡ (
      ok tt,
      record m { sequences = put m.sequences id (record s { context_len = s.context_len + n }) },
    )
unfolding advance
advance_run m id s n e = rw (e, state_of)

module _ (rt : Runtime) where
  open rt use {Logits, hash}

  -- The layers have run on the tensors `ks` and `vs` with the tokens from position `n` on, with the slots that
  -- follow it in the block table, and with the table itself where something is cached; the tensors and the
  -- logits are what they gave.
  pub record Ran (k : ℕ) (lora : Option ℕ) (tokens : List ℕ) (n : ℕ) (table : List ℕ)
      (ks vs : List rt.Tensor) (m : Cache rt) (logits : Logits) : Type 0 where
    pub chunk : Chunk
    pub all : chunk.tokens ≡ tokens
    pub start : chunk.start ≡ n
    pub prefix : 0 < n → chunk.prefix_blocks ≡ table
    pub slots : Slots k table n chunk.positions
    pub enough : length chunk.positions ≡ length tokens
    pub adapter : chunk.lora ≡ lora
    pub result : rt.run_chunk ks vs chunk ≡ (m.k_caches, m.v_caches, logits)

  -- The outcome of a prefill of the sequence `id` with the tokens from position `n` on: the layers have
  -- run on them, and the sequence counts them behind the blocks `old` that it had. Or memory has run out. Either way no block is lost or
  -- shared without a reference.
  pub record Prefilled (id : ℤ) (k : ℕ) (lora : Option ℕ) (old tokens : List ℕ) (n : ℕ)
      (ks vs : List rt.Tensor) (r : Result Logits × Cache rt) : Type 0 where
    pub inv : Inv r.1
    pub size : r.1.block_size ≡ k
    pub outcome :
        ((logits : Logits) × (s : SequenceState) × (r.0 ≡ ok logits)
          × (get r.1.sequences id ≡ some s)
          × (s.context_len ≡ n + length tokens)
          × (n + length tokens ≤ length s.block_table * k)
          × ((ext : List ℕ) × (s.block_table ≡ old ++ ext))
          × Ran k lora tokens n s.block_table ks vs r.1 logits)
        ⊎ (r.0 ≡ err out_of_memory)

  -- After the layers have run and the chunk is counted.
  cached :
      (m : Cache rt) (id : ℤ) (s : SequenceState) (tokens : List ℕ) (lora : Option ℕ)
      (s' : SequenceState) {ext : List ℕ} (m' : Cache rt) (logits : Logits) (ks vs : List rt.Tensor)
      → get m'.sequences id ≡ some s'
      → s.context_len + length tokens ≤ length s'.block_table * m.block_size
      → Grown m id s m' s' ext
      → Ran m.block_size lora tokens s.context_len s'.block_table m.k_caches m.v_caches
          (record m' { k_caches = ks; v_caches = vs })
          logits
      → Prefilled id m.block_size lora s.block_table tokens s.context_len m.k_caches m.v_caches
          ((advance id (length tokens) >> pure logits) (record m' { k_caches = ks; v_caches = vs }))
  cached m id s tokens lora s' {ext} m' logits ks vs found room grown ran =
      let s'' : SequenceState = record s' { context_len = s'.context_len + length tokens } in
      let v =
        context-Inv (record m' { k_caches = ks; v_caches = vs }) id s' s'' found refl
          (caches-Inv m' ks vs grown.inv) in
      rw (advance_run (record m' { k_caches = ks; v_caches = vs }) id s' (length tokens) found)
        (record {
          inv = v;
          size = grown.size;
          outcome = inl (
            logits,
            s'',
            refl,
            ground (arith, get-put m'.sequences id id s'', int_beq_iff id id),
            omega (arith, grown.context),
            room,
            (ext, grown.table),
            record {
              chunk = ran.chunk;
              all = ran.all;
              start = ran.start;
              prefix = ran.prefix;
              slots = ran.slots;
              enough = ran.enough;
              adapter = ran.adapter;
              result = ran.result;
            },
          );
        })

  -- A chunk continues a sequence whose blocks cover its context. The layers run once, on the chunk's
  -- tokens, from the sequence's context on, in the slots that follow it, over its block table where
  -- something is cached and on the tensors as they were; the cache then has the tensors that they gave, and
  -- counts the chunk. Or the pool runs out of memory. Either way no block is lost or shared without a
  -- reference.
  pub continue_prefill-Prefilled :
      (m : Cache rt) (id : ℤ) (s : SequenceState) (tokens : List ℕ) (lora : Option ℕ)
      → get m.sequences id ≡ some s
      → s.context_len ≤ length s.block_table * m.block_size
      → 0 < m.block_size
      → Inv m
      → Prefilled id m.block_size lora s.block_table tokens s.context_len m.k_caches m.v_caches
          (continue_prefill rt id tokens lora m)
  unfolding continue_prefill
  continue_prefill-Prefilled m id s tokens lora e covered sz v =
      let res = reserve-Reserved m id s (length tokens) e covered sz v in
      let m₁ = (reserve id (length tokens) m).1 in
      let found : get m₁.sequences id ≡ some res.state =
        ground (arith, res.grown.states id, int_beq_iff id id) in
      elim res.outcome [
        | inr (fails, spent, small) ↦
            rw (e, state_of)
              (rw fails (record { inv = res.grown.inv; size = res.grown.size; outcome = inr refl }))
        | inl (ps, done, long, room, slots) ↦
            let given : Chunk = record {
              tokens = tokens;
              start = s.context_len;
              prefix_blocks = if ltb 0 s.context_len then res.state.block_table else [];
              positions = ps;
              lora = lora;
            } in
            let out = rt.run_chunk m₁.k_caches m₁.v_caches given in
            let same : rt.run_chunk m.k_caches m.v_caches given ≡ out =
              ap (λ ks. rt.run_chunk ks m.v_caches given) (sym res.grown.keys)
              ∙ ap (λ vs. rt.run_chunk m₁.k_caches vs given) (sym res.grown.values) in
            rw (e, state_of)
              (rw done (
                rw (found, state_of)
                  (cached m id s tokens lora res.state m₁ _ _ _ found room res.grown (record {
                    chunk = given;
                    all = refl;
                    start = refl;
                    prefix = λ some_past. ground arith;
                    slots = slots;
                    enough = long;
                    adapter = refl;
                    result = same;
                  }))))
      ]
