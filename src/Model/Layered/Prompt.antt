-- ===== src/Model/Layered/Prompt.antt =====
-- A prompt that continue_prefill of src/wllm/models/llama.py works off in chunks, as the scheduler has it done.
use w_llm.Base.{
  ℕ, ◌<◌, ◌≡◌, refl, ◌∙◌, sym, ap, subst, ◌⊎◌, inl, inr, none, List, [], ◌∷◌, ◌++◌, length, All,
  arith,
}
use mathlib.Core.List.{append_assoc, append-nil}
use w_llm.Base.Int.{ℤ, int_eq, int_beq_iff}
use w_llm.Base.Dict.{get, get-put}
use w_llm.Base.Outcome.{Act, ok, err, out_of_memory, ◌>>=◌, ◌>>◌, pure}
use w_llm.Kv.Manager.{create_sequence, empty_state}
use w_llm.Kv.Ownership.{Inv, create_sequence-Inv}
use w_llm.Runtime.{Runtime}
use w_llm.Model.{Cache, continue_prefill}
use w_llm.Model.Prefill.{continue_prefill-Prefilled}
use w_llm.Model.Layered.{RunsLayers, Holds, continue_prefill-Continued}
use w_llm.Llama.{Torch, LlamaForCausalLm, forward}
use w_llm.Llama.Causal.{TorchLaws}
use w_llm.Llama.Spec.{forward_with}
use w_llm.Llama.Chunks.{LayersCached-nil}
use w_llm.Llama.Naive.{NoAdapter, forward-forward_with, forward_with-nil}

abbrev pub joined : List (List ℕ) → List ℕ
joined [] = []
joined (chunk ∷ chunks) = chunk ++ joined chunks

module _ (rt : Runtime) {P A H M L : Type 0} (m : LlamaForCausalLm H P A M L)
    (tc : Torch P A rt.Slot) (laws : TorchLaws tc) (rows_of : rt.Logits → List L) where
  -- The chunks one after another, and their logits in a row.
  abbrev pub continue_each : ℤ → List (List ℕ) → Act (Cache rt) (List L)
  continue_each id [] = pure []
  continue_each id (chunk ∷ chunks) = do
    logits ← continue_prefill rt id chunk none
    rest ← continue_each id chunks
    pure (rows_of logits ++ rest)

  abbrev pub prefill_in_chunks : ℤ → List (List ℕ) → Act (Cache rt) (List L)
  prefill_in_chunks id chunks = do create_sequence id; continue_each id chunks

  continue_each-forward_with :
      (chunks : List (List ℕ)) (c : Cache rt) (id : ℤ) (past : List ℕ)
      → 0 < c.block_size
      → RunsLayers rt m tc laws rows_of c.block_size
      → Inv c
      → Holds rt m tc laws rows_of c id none past
      → ((rows : List L) × ((continue_each id chunks c).0 ≡ ok rows)
          × (forward_with tc laws m none (past ++ joined chunks)
              ≡ forward_with tc laws m none past ++ rows))
        ⊎ ((continue_each id chunks c).0 ≡ err out_of_memory)
  continue_each-forward_with [] c id past sz runs v h = inl (
    [],
    refl,
    ap (forward_with tc laws m none) (append-nil past)
        ∙ sym (append-nil (forward_with tc laws m none past)),
  )
  continue_each-forward_with (chunk ∷ chunks) c id past sz runs v h =
      let next = (continue_prefill rt id chunk none c).1 in
      let books = continue_prefill-Prefilled rt c id h.state chunk none h.found h.covered sz v in
      elim (continue_prefill-Continued rt m tc laws rows_of c id none past chunk sz runs v h) [
        | inr fails ↦ inr (rw fails refl)
        | inl (logits, done, rows, held) ↦
            elim (continue_each-forward_with chunks next id (past ++ chunk)
              (subst (λ k. 0 < k) (sym books.size) sz)
              (subst (RunsLayers rt m tc laws rows_of) (sym books.size) runs) books.inv held) [
                | inr fails ↦ inr (rw (done, fails) refl)
                | inl (rest, then_done, more) ↦ inl (
                  rows_of logits ++ rest,
                  rw (done, then_done) refl,
                  ap (forward_with tc laws m none) (sym (append_assoc past chunk (joined chunks)))
                      ∙ more
                      ∙ ap (λ z. z ++ rest) rows
                      ∙ append_assoc (forward_with tc laws m none past) (rows_of logits) rest,
                )
              ]
      ]

  -- A new sequence's prompt, in chunks of any sizes. The engine's forward pass is that of the layers, PyTorch
  -- does what it documents, no adapter is used, and the cache has its books in order, blocks of at least one
  -- slot, and a pair of tensors for each layer. Whatever else the cache holds, the logits of the chunks in a
  -- row are those of one pass over the prompt without a cache, or memory runs out.
  pub prefill_in_chunks-forward :
      (c : Cache rt) (id : ℤ) (chunks : List (List ℕ))
      → get c.sequences id ≡ none
      → 0 < c.block_size
      → RunsLayers rt m tc laws rows_of c.block_size
      → Inv c
      → length c.k_caches ≡ length m.layers
      → length c.v_caches ≡ length m.layers
      → All (λ l. NoAdapter l.self_attn) m.layers
      → ((prefill_in_chunks id chunks c).0 ≡ ok (forward m tc (joined chunks)))
        ⊎ ((prefill_in_chunks id chunks c).0 ≡ err out_of_memory)
  unfolding create_sequence
  prefill_in_chunks-forward c id chunks new sz runs v some_k some_v plain =
      let started = (create_sequence id c).1 in
      let held : Holds rt m tc laws rows_of started id none [] = record {
        state = empty_state;
        found = ground (arith, get-put c.sequences id id empty_state, int_beq_iff id id);
        context = refl;
        covered = omega arith;
        once = λ b. omega arith;
        cached =
            LayersCached-nil m tc laws rt.storage c.block_size none m.layers [] c.k_caches
              c.v_caches some_k some_v;
      } in
      elim (continue_each-forward_with chunks started id [] sz runs (create_sequence-Inv c id new v)
        held) [
          | inr fails ↦ inr fails
          | inl (rows, done, whole) ↦ inl (
              done
              ∙ ap ok (
                  sym (
                    forward-forward_with m tc laws rt.storage c.block_size (joined chunks) plain
                    ∙ whole
                    ∙ ap (λ z. z ++ rows) (forward_with-nil m tc laws rt.storage c.block_size))))
        ]
