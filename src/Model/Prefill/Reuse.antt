-- ===== src/Model/Prefill/Reuse.antt =====
-- prefill_with_cache_and_prefix_reuse of src/wllm/models/llama.py: the blocks that it takes over, and what the layers
-- are run on.
use w_llm.Base.{
  ℕ, ◌+◌, ◌*◌, ◌/◌, ◌≤◌, ◌<◌, ◌≡◌, refl, ◌∙◌, sym, ap, subst, inl, inr, none, some, Option, List,
  [], ◌∷◌, ◌++◌, length, length-drop, drop, arith,
}
use w_llm.Base.Int.{ℤ, int_eq, int_beq_iff}
use w_llm.Base.Dict.{get, put, get-put}
use w_llm.Base.Outcome.{ok, ◌>>◌, pure}
use w_llm.Kv.Manager.{SequenceState, create_sequence, create_sequence_from_prefix}
use w_llm.Kv.Prefix.{match_prefix, register_prefix_blocks}
use w_llm.Kv.Ownership.{Inv, started_at, create_sequence-Inv}
use w_llm.Kv.Ownership.Reserve.{div_bound}
use w_llm.Kv.Ownership.Prefix.{
  match_prefix-create, register_prefix_blocks-Inv, register_prefix_blocks_size,
}
use w_llm.Kv.Ownership.Tensors.{create_sequence_from_prefix_tensors, register_prefix_blocks_tensors}
use w_llm.Runtime.{Runtime}
use w_llm.Model.{Cache, continue_prefill, create_matching, prefill_with_cache_and_prefix_reuse}
use w_llm.Model.Prefill.{Ran, Prefilled, continue_prefill-Prefilled}

module _ (rt : Runtime) where
  open rt use {Logits, hash}

  created :
      (m : Cache rt) (id : ℤ) (bs : List ℕ)
      → get m.sequences id ≡ none
      → Inv m
      → (create_sequence_from_prefix id bs m).0 ≡ ok tt
      → Inv (create_sequence_from_prefix id bs m).1
      → (create_sequence_from_prefix id bs m).1.sequences ≡ put m.sequences id (started_at m bs)
      → (create_sequence_from_prefix id bs m).1.block_size ≡ m.block_size
      → ((create_matching rt id bs m).0 ≡ ok tt)
        × Inv (create_matching rt id bs m).1
        × (get (create_matching rt id bs m).1.sequences id ≡ some (started_at m bs))
        × ((create_matching rt id bs m).1.block_size ≡ m.block_size)
        × ((create_matching rt id bs m).1.k_caches ≡ m.k_caches)
        × ((create_matching rt id bs m).1.v_caches ≡ m.v_caches)
  unfolding create_matching create_sequence
  created m id [] new v done inv states size = (
    refl,
    create_sequence-Inv m id new v,
    ground (arith, get-put m.sequences id id (started_at m []), int_beq_iff id id),
    refl,
    refl,
    refl,
  )
  created m id (b ∷ bs) new v done inv states size = (
    done,
    inv,
    ap (λ d. get d id) states
        ∙ ground (arith, get-put m.sequences id id (started_at m (b ∷ bs)), int_beq_iff id id),
    size,
    (create_sequence_from_prefix_tensors m id (b ∷ bs)).0,
    (create_sequence_from_prefix_tensors m id (b ∷ bs)).1,
  )

  -- Once the rest of the prompt is cached, the prompt's whole blocks are registered.
  registered :
      (m : Cache rt) (id : ℤ) (k : ℕ) (lora : Option ℕ) (old tokens : List ℕ) (n : ℕ)
      (ks vs : List rt.Tensor) (prompt : List ℕ) (logits : Logits) (s : SequenceState)
      → Inv m
      → m.block_size ≡ k
      → 0 < k
      → get m.sequences id ≡ some s
      → s.context_len ≡ n + length tokens
      → n + length tokens ≤ length s.block_table * k
      → n + length tokens ≡ length prompt
      → ((ext : List ℕ) × (s.block_table ≡ old ++ ext))
      → Ran rt k lora tokens n s.block_table ks vs m logits
      → Prefilled rt id k lora old tokens n ks vs
          ((register_prefix_blocks hash id prompt >> pure logits) m)
  registered m id k lora old tokens n ks vs prompt logits s v size sz found context room full grown
        ran =
      let (done, inv, kept) =
        register_prefix_blocks-Inv hash m id s prompt found
          (subst (λ j. length prompt / j ≤ length s.block_table) (sym size)
            (div_bound (length prompt) k (length s.block_table) sz
              (subst (λ j. j ≤ length s.block_table * k) full room)))
          v in
      let (keys, values) = register_prefix_blocks_tensors hash m id s prompt found in
      rw done (record {
        inv = inv;
        size = register_prefix_blocks_size hash m id s prompt found ∙ size;
        outcome = inl (
          logits,
          s,
          refl,
          ap (λ d. get d id) kept ∙ found,
          context,
          room,
          grown,
          record {
            chunk = ran.chunk;
            all = ran.all;
            start = ran.start;
            prefix = ran.prefix;
            slots = ran.slots;
            enough = ran.enough;
            adapter = ran.adapter;
            result =
                ran.result
                ∙ ap (λ x. (x, m.v_caches, logits)) (sym keys)
                ∙ ap (λ x. ((register_prefix_blocks hash id prompt m).1.k_caches, x, logits))
                    (sym values);
          },
        );
      })

  -- A new sequence's prompt of at least one token. The sequence starts with the blocks that `match_prefix`
  -- finds for it; the layers run once, on the rest of the prompt, at least one token, from the end of those
  -- blocks on, in the slots that follow them and over the block table that they begin; the cache then has
  -- the tensors that the layers gave, and the sequence counts the whole prompt. Or the pool runs out of
  -- memory. Either way no block is lost or shared without a reference.
  pub prefill_with_cache_and_prefix_reuse-Prefilled :
      (m : Cache rt) (id : ℤ) (prompt : List ℕ) (lora : Option ℕ)
      → get m.sequences id ≡ none
      → 0 < m.block_size
      → 0 < length prompt
      → Inv m
      → (bs : List ℕ) × (match_prefix hash prompt m ≡ ok (bs, length bs * m.block_size))
        × (length bs * m.block_size < length prompt)
        × Prefilled rt id m.block_size lora bs
            (drop (length bs * m.block_size) prompt)
            (length bs * m.block_size)
            m.k_caches
            m.v_caches
            (prefill_with_cache_and_prefix_reuse rt id prompt lora m)
  unfolding prefill_with_cache_and_prefix_reuse
  prefill_with_cache_and_prefix_reuse-Prefilled m id prompt lora new sz some_token v =
      let (bs, hit, short, done, inv, states, size) =
        match_prefix-create hash prompt m id new v sz some_token in
      let (ran, inv₁, found, size₁, keys, values) = created m id bs new v done inv states size in
      let m₁ = (create_matching rt id bs m).1 in
      let n = length bs * m.block_size in
      let rest = drop n prompt in
      let run = continue_prefill rt id rest lora m₁ in
      let cont : Prefilled rt id m.block_size lora bs rest n m.k_caches m.v_caches run =
        subst (λ j. Prefilled rt id j lora bs rest n m.k_caches m.v_caches run) size₁
          (subst (λ ks. Prefilled rt id m₁.block_size lora bs rest n ks m.v_caches run) keys
            (subst (λ vs. Prefilled rt id m₁.block_size lora bs rest n m₁.k_caches vs run) values
              (continue_prefill-Prefilled rt m₁ id (started_at m bs) rest lora found
                (subst (λ j. n ≤ length bs * j) (sym size₁) (omega arith))
                (omega (arith, size₁, sz)) inv₁))) in
      let full : n + length rest ≡ length prompt = omega (arith, length-drop n prompt, short) in
      (
        bs,
        hit,
        short,
        elim cont.outcome [
          | inr fails ↦
              rw hit (
                rw ran (rw fails (record { inv = cont.inv; size = cont.size; outcome = inr refl })))
          | inl (logits, s, returned, at, context, room, grown, layers) ↦ rw hit (
              rw ran (
                rw returned (
                  registered _ id m.block_size lora bs rest n m.k_caches m.v_caches prompt logits s
                    cont.inv cont.size sz at context room full grown layers)))
        ],
      )
