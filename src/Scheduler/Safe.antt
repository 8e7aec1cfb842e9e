-- ===== src/Scheduler/Safe.antt =====
-- What every call of src/wllm/engine/scheduler.py keeps, on every path: a safe cache, and any property of
-- the stored sequences that a write of one keeps.
pub mod Admission
pub mod Decoding
pub mod Iteration
use w_llm.Base.{
  Bool, true, false, Option, none, some, List, [], ◌∷◌, inl, inr, Option-cases, if◌then◌else◌,
}
use w_llm.Base.Int.{ℤ, int_eq}
use w_llm.Base.Dict.{Dict, get, put}
use w_llm.Base.Keeps.{Keeps, Keeps-bind, Keeps-pure, Keeps-if}
use w_llm.Base.Outcome.{Act, ok, err, ◌>>=◌, ◌>>◌, pure}
use w_llm.Kv.Safe.{Safe, IsSafe}
use w_llm.Kv.Safe.Calls.{free_sequence-Safe}
use w_llm.Kv.Safe.Swap.{swap_out-Safe, discard_swapped-Safe}
use w_llm.Sequence.{SeqStatus}
use w_llm.Runtime.{Runtime}
use w_llm.Model.{Cache}
use w_llm.Scheduler.{
  Scheduler, Seq, on_cache, seq_of, put_seq, set_status, drop_running, drop_swapped, drop_waiting,
  cancel, sample_and_append, swap_victim, recompute_victim, preempt, member,
}

-- A property of the Sequence objects that any write of one keeps.
pub record Written (rt : Runtime) : Type 1 where
  pub Fact : Dict ℤ (Seq rt) → Type 0
  pub written : (d : Dict ℤ (Seq rt)) (id : ℤ) (q : Seq rt) → Fact d → Fact (put d id q)

pub record Sound {rt : Runtime} (w : Written rt) (s : Scheduler rt) : Type 0 where
  pub cache : Safe s.cache
  pub stored : w.Fact s.store

module _ {rt : Runtime} (w : Written rt) where
  open rt use {storage}

  abbrev pub KeepsSound : {A : Type 0} → Act (Scheduler rt) A → Type 0
  KeepsSound f = Keeps (Sound w) f

  pub on_cache-Sound : {A : Type 0} {f : Act (Cache rt) A} → IsSafe f → KeepsSound (on_cache f)
  on_cache-Sound k = record {
    at = λ s h. record { cache = k.at s.cache h.cache; stored = h.stored };
  }

  pub seq_of-Sound : (id : ℤ) → KeepsSound (seq_of id)
  seq_of-Sound id = record {
    at = λ s h. elim (Option-cases (get s.store id)) [
      | inl e ↦ rw (e, seq_of) h
      | inr (q, e) ↦ rw (e, seq_of) h
    ];
  }

  pub put_seq-Sound : (id : ℤ) (q : Seq rt) → KeepsSound (put_seq id q)
  put_seq-Sound id q = record {
    at = λ s h. record { cache = h.cache; stored = w.written s.store id q h.stored };
  }

  pub set_status-Sound : (id : ℤ) (st : SeqStatus) → KeepsSound (set_status id st)
  set_status-Sound id st =
      Keeps-bind (seq_of-Sound id) λ q. put_seq-Sound id (record q { status = st })

  -- The queues, and the random numbers.
  pub queues-Sound :
      (s : Scheduler rt) (waiting running swapped : List ℤ)
      → Sound w s
      → Sound w (record s { waiting = waiting; running = running; swapped = swapped })
  queues-Sound s waiting running swapped h = record { cache = h.cache; stored = h.stored }

  drop_running-Sound : (id : ℤ) → KeepsSound (drop_running id)
  drop_running-Sound id = record { at = λ s h. queues-Sound s _ _ _ h }

  drop_swapped-Sound : (id : ℤ) → KeepsSound (drop_swapped id)
  drop_swapped-Sound id = record { at = λ s h. queues-Sound s _ _ _ h }

  drop_waiting-Sound : (id : ℤ) → KeepsSound (drop_waiting id)
  drop_waiting-Sound id = record { at = λ s h. queues-Sound s _ _ _ h }

  pub cancel-Sound : (id : ℤ) → KeepsSound (cancel id)
  unfolding cancel
  cancel-Sound id = record {
    at = λ s h.
        (Keeps-if (member id s.running) _ _
            (Keeps-bind (on_cache-Sound (free_sequence-Safe id)) λ _. drop_running-Sound id)
            (Keeps-if (member id s.swapped) _ _
              (Keeps-bind (on_cache-Sound (discard_swapped-Safe id)) λ _. drop_swapped-Sound id)
              (Keeps-if (member id s.waiting) _ _ (drop_waiting-Sound id) (Keeps-pure tt)))).at
          s h;
  }

  pub sample_and_append-Sound :
      (id : ℤ) (logits : rt.Logits) → KeepsSound (sample_and_append id logits)
  unfolding sample_and_append
  sample_and_append-Sound id logits = Keeps-bind (seq_of-Sound id) λ q. record {
    at = λ s h. record { cache = h.cache; stored = w.written s.store id _ h.stored };
  }

  front_swapped-Sound :
      (id : ℤ) → KeepsSound {A = Unit {0}} (λ s. (ok tt, record s { swapped = id ∷ s.swapped }))
  front_swapped-Sound id = record { at = λ s h. queues-Sound s _ _ _ h }

  front_waiting-Sound :
      (id : ℤ) → KeepsSound {A = Unit {0}} (λ s. (ok tt, record s { waiting = id ∷ s.waiting }))
  front_waiting-Sound id = record { at = λ s h. queues-Sound s _ _ _ h }

  swap_victim-Sound : (id : ℤ) → KeepsSound (swap_victim id)
  unfolding swap_victim
  swap_victim-Sound id =
      Keeps-bind (on_cache-Sound (swap_out-Safe storage id))
        λ _. Keeps-bind (set_status-Sound id SeqStatus.swapped) λ _. front_swapped-Sound id

  recompute_victim-Sound : (id : ℤ) → KeepsSound (recompute_victim id)
  unfolding recompute_victim
  recompute_victim-Sound id = Keeps-bind (on_cache-Sound (free_sequence-Safe id)) λ _.
      Keeps-bind (seq_of-Sound id) λ q.
        Keeps-bind
          (put_seq-Sound id (record q { output_token_ids = []; status = SeqStatus.waiting }))
          λ _. front_waiting-Sound id

  pub preempt-Sound : (id : ℤ) → KeepsSound (preempt id)
  unfolding preempt
  preempt-Sound id = record {
    at = λ s h.
        (Keeps-bind (drop_running-Sound id) λ _.
            Keeps-if s.config.enable_cpu_swap _ _ (swap_victim-Sound id)
              (recompute_victim-Sound id)).at
          s h;
  }
