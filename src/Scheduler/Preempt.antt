-- ===== src/Scheduler/Preempt.antt =====
-- What `_preempt` of src/wllm/engine/scheduler.py keeps of a sequence, and what it starts over.
use w_llm.Base.{◌≡◌, refl, ◌⊎◌, inl, inr, true, false, some, [], ◌∷◌, arith, Bool-cases}
use w_llm.Base.Int.{ℤ, int_eq, int_beq_iff}
use w_llm.Base.Dict.{get, remove, get-put}
use w_llm.Base.Outcome.{Result, ok}
use w_llm.Kv.Manager.{SequenceState}
use w_llm.Kv.Ownership.{Inv, free_sequence-Inv}
use w_llm.Kv.Ownership.Swap.{swap_out-SwappedOut}
use w_llm.Runtime.{Runtime}
use w_llm.Sequence.{SeqStatus}
use w_llm.Scheduler.{Scheduler, Seq, preempt, swap_victim, recompute_victim, seq_of, remove_first}

module _ {rt : Runtime} where
  open rt use {storage}

  pub record Preempted (s : Scheduler rt) (id : ℤ) (q : Seq rt) (c : SequenceState)
      (r : Result (Unit {0}) × Scheduler rt) : Type 0 where
    pub done : r.0 ≡ ok tt
    pub inv : Inv r.1.cache
    pub running : r.1.running ≡ remove_first id s.running
    pub sequences : r.1.cache.sequences ≡ remove s.cache.sequences id
    pub outcome :
        ((s.config.enable_cpu_swap ≡ true)
          × (r.1.swapped ≡ id ∷ s.swapped)
          × (r.1.waiting ≡ s.waiting)
          × (get r.1.store id ≡ some (record q { status = SeqStatus.swapped }))
          × (get r.1.cache.swapped_context_len id ≡ some c.context_len))
        ⊎ ((s.config.enable_cpu_swap ≡ false)
            × (r.1.waiting ≡ id ∷ s.waiting)
            × (r.1.swapped ≡ s.swapped)
            × (get r.1.store id
                ≡ some (record q { output_token_ids = []; status = SeqStatus.waiting })))

  -- A stored and cached sequence that is preempted gives up its blocks and no others, and heads the queue it goes to.
  -- With the CPU swap its tokens are kept and its context length is saved; without it its output is
  -- dropped, but its log-probabilities and its guide stay as they were.
  pub preempt-Preempted :
      (s : Scheduler rt) (id : ℤ) (q : Seq rt) (c : SequenceState)
      → get s.store id ≡ some q
      → get s.cache.sequences id ≡ some c
      → Inv s.cache
      → Preempted s id q c (preempt id s)
  unfolding preempt swap_victim recompute_victim
  preempt-Preempted s id q c stored cached v = elim (Bool-cases s.config.enable_cpu_swap) [
    | inl swaps ↦
        let (done, out) = swap_out-SwappedOut storage s.cache id c cached v in
        simp swaps (
          rw done (
            rw (stored, seq_of)
              (record {
                done = refl;
                inv = out.inv;
                running = refl;
                sequences = out.sequences;
                outcome = inl (
                  swaps,
                  refl,
                  refl,
                  ground (
                    arith,
                    get-put s.store id id (record q { status = SeqStatus.swapped }),
                    int_beq_iff id id,
                  ),
                  out.context,
                );
              })))
    | inr starts_over ↦
        let (done, inv, sequences) = free_sequence-Inv s.cache id c cached v in
        simp starts_over (
          rw done (
            rw (stored, seq_of)
              (record {
                done = refl;
                inv = inv;
                running = refl;
                sequences = sequences;
                outcome = inr (
                  starts_over,
                  refl,
                  refl,
                  ground (
                    arith,
                    get-put s.store id id
                        (record q { output_token_ids = []; status = SeqStatus.waiting }),
                    int_beq_iff id id,
                  ),
                );
              })))
  ]
