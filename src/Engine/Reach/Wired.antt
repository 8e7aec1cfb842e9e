-- ===== src/Engine/Reach/Wired.antt =====
-- What every piece of src/wllm/engine/async_engine.py keeps: a safe cache, and for each queue of
-- self._queues one detokenizer, one stored sequence and an id that was given out once.
use w_llm.Base.{
  ℕ, ◌≤◌, ◌≡◌, refl, inl, inr, Bool, true, false, some, List, [], ◌∷◌, drop, arith, if◌then◌else◌,
  Bool-cases, Option-cases, nat_eq,
}
use w_llm.Base.Int.{ℤ, pos, int_eq, int_beq, int_beq_iff}
use w_llm.Base.Dict.{Dict, get, put, remove, get-put, get-remove}
use w_llm.Base.Keeps.{Keeps, Keeps-bind, Keeps-pure, Keeps-if}
use w_llm.Base.Outcome.{Act}
use w_llm.Api.StopStrings.{Text}
use w_llm.Kv.Safe.{Safe}
use w_llm.Detokenizer.{IncrementalDetokenizer, add_tokens}
use w_llm.Runtime.{Runtime}
use w_llm.Sequence.{is_finished}
use w_llm.Scheduler.{Scheduler, Seq, member, remove_first, has_unfinished_requests}
use w_llm.Scheduler.Safe.{Written, Sound, KeepsSound}
use w_llm.Scheduler.Safe.Iteration.{step-Sound}
use w_llm.Engine.{
  AsyncEngine, Item, Future, LoopTask, already_reported, close_stream, report, on_token, on_tokens,
  drain_completed_beam_groups, new_engine,
}
use w_llm.Engine.Loop.{loop_body, drain, on_scheduler}
use w_llm.Engine.Reach.Queues.{member-remove_first, once-remove_first}

-- The listed ids have their sequences.
abbrev pub Stored : (rt : Runtime) → List ℤ → Dict ℤ (Seq rt) → Type 0
Stored rt ids d = (id : ℤ) → member id ids ≡ true → (q : Seq rt) × (get d id ≡ some q)

pub put-Stored :
    (rt : Runtime) (ids : List ℤ) (d : Dict ℤ (Seq rt)) (id : ℤ) (q : Seq rt)
    → Stored rt ids d
    → Stored rt ids (put d id q)
put-Stored rt ids d id q fact j listed = elim (Bool-cases (int_beq id j)) [
  | inl same ↦ (q, ground (arith, get-put d id j q))
  | inr other ↦ let (q', e) = fact j listed in (q', ground (arith, e, get-put d id j q))
]

abbrev pub known : (rt : Runtime) → List ℤ → Written rt
known rt ids = record { Fact = Stored rt ids; written = put-Stored rt ids }

module _ {rt : Runtime} where
  pub record Wired (s : AsyncEngine rt) : Type 0 where
    pub sound : Sound (known rt s.queues) s.scheduler
    pub once : (id : ℤ) → member id (remove_first id s.queues) ≡ false
    pub given_out : (n : ℕ) → s.next_seq_id ≤ n → member (pos n) s.queues ≡ false
    pub detokenized :
        (id : ℤ)
        → member id s.queues ≡ true
        → (d : IncrementalDetokenizer) × (get s.detokenizers id ≡ some d)

  -- The items, the counts, the futures and the task play no part.
  pub aside-Wired :
      (s : AsyncEngine rt) (items : Dict ℤ (List Item)) (counts : Dict ℤ ℕ) (next : ℕ)
      (futures : Dict ℕ Future) (task : LoopTask)
      → Wired s
      → Wired (record s {
        items = items;
        reported_count = counts;
        next_group_id = next;
        beam_futures = futures;
        loop_task = task;
      })
  aside-Wired s items counts next futures task v = record {
    sound = v.sound;
    once = v.once;
    given_out = v.given_out;
    detokenized = v.detokenized;
  }

  pub scheduler-Wired :
      (s : AsyncEngine rt) (sch : Scheduler rt)
      → Sound (known rt s.queues) sch
      → Wired s
      → Wired (record s { scheduler = sch })
  scheduler-Wired s sch sound v = record {
    sound = sound;
    once = v.once;
    given_out = v.given_out;
    detokenized = v.detokenized;
  }

  if-Wired : (b : Bool) (s s' : AsyncEngine rt) → Wired s → Wired s' → Wired (if b then s else s')
  if-Wired true s s' v v' = v
  if-Wired false s s' v v' = v'

  -- A queue is dropped, and its detokenizer with it.
  pub drop_queue-Wired :
      (id : ℤ) (s : AsyncEngine rt) (items : Dict ℤ (List Item)) (counts : Dict ℤ ℕ)
      → Wired s
      → Wired (record s {
        items = items;
        queues = remove_first id s.queues;
        detokenizers = remove s.detokenizers id;
        reported_count = counts;
      })
  drop_queue-Wired id s items counts v = record {
    sound = record {
      cache = v.sound.cache;
      stored = λ j h. v.sound.stored j (member-remove_first j id s.queues h);
    };
    once = λ j. once-remove_first j id s.queues (v.once j);
    given_out = λ n h. ground (arith, v.given_out n h, member-remove_first (pos n) id s.queues);
    detokenized = λ j h.
        let (d, e) = v.detokenized j (member-remove_first j id s.queues h) in
        (d, ground (arith, e, get-remove s.detokenizers id j, h, v.once id, int_beq_iff id j));
  }

  pub new_engine-Wired : (sch : Scheduler rt) → Safe sch.cache → Wired (new_engine rt sch)
  new_engine-Wired sch safe = record {
    sound = record { cache = safe; stored = λ id h. cc };
    once = λ id. refl;
    given_out = λ n h. refl;
    detokenized = λ id h. cc;
  }

module _ {rt : Runtime} (decode : List ℕ → Text) where
  report-Wired :
      (id : ℤ) (output : List ℕ) (detok : IncrementalDetokenizer) (s : AsyncEngine rt)
      → Wired s
      → Wired (report decode id output detok s)
  unfolding report
  report-Wired id output detok s v = record {
    sound = v.sound;
    once = v.once;
    given_out = v.given_out;
    detokenized = λ j h.
        let detok' = (add_tokens decode (drop (already_reported decode id s) output) detok).1 in
        let at = get-put s.detokenizers id j detok' in
        elim (Bool-cases (int_beq id j)) [
          | inl same ↦ (detok', ground (arith, at))
          | inr other ↦ let (d, e) = v.detokenized j h in (d, ground (arith, e, at))
        ];
  }

  close_stream-Wired : (id : ℤ) (s : AsyncEngine rt) → Wired s → Wired (close_stream decode id s)
  unfolding close_stream
  close_stream-Wired id s v = drop_queue-Wired id s _ _ v

  on_token-Wired : (q : Seq rt) → Keeps Wired (on_token {rt = rt} decode q)
  unfolding on_token
  on_token-Wired q = record {
    at = λ s v. elim (Bool-cases (member q.seq_id s.queues)) [
      | inr deaf ↦ rw deaf v
      | inl listens ↦ rw listens (elim (Option-cases (get s.detokenizers q.seq_id)) [
        | inl e ↦ rw e v
        | inr (detok, e) ↦ rw e (
            let s' = report decode q.seq_id q.output_token_ids detok s in
            let v' = report-Wired q.seq_id q.output_token_ids detok s v in
            if-Wired (is_finished q) (close_stream decode q.seq_id s') s'
              (close_stream-Wired q.seq_id s' v') v')
      ])
    ];
  }

  on_tokens-Wired : (ids : List ℤ) → Keeps Wired (on_tokens {rt = rt} decode ids)
  unfolding on_tokens
  on_tokens-Wired [] = Keeps-pure tt
  on_tokens-Wired (id ∷ ids) = record {
    at = λ s v. elim (Option-cases (get s.scheduler.store id)) [
      | inl e ↦ rw (e, on_tokens) v
      | inr (q, e) ↦
          rw (e, on_tokens) ((Keeps-bind (on_token-Wired q) λ _. on_tokens-Wired ids).at s v)
    ];
  }

  drain-Wired : Keeps Wired (drain {rt = rt} decode)
  unfolding drain_completed_beam_groups
  drain-Wired = record {
    at = λ s v. record {
      sound = record { cache = v.sound.cache; stored = v.sound.stored };
      once = v.once;
      given_out = v.given_out;
      detokenized = v.detokenized;
    };
  }

  -- A call on the scheduler that keeps it sound, whatever is stored.
  pub on_scheduler-Wired :
      {A : Type 0} {f : Act (Scheduler rt) A}
      → ((ids : List ℤ) → KeepsSound (known rt ids) f)
      → Keeps Wired (on_scheduler {rt = rt} decode f)
  on_scheduler-Wired k = record {
    at = λ s v. scheduler-Wired s _ ((k s.queues).at s.scheduler v.sound) v;
  }

  pub loop_body-Wired : Keeps Wired (loop_body {rt = rt} decode)
  unfolding loop_body
  loop_body-Wired = record {
    at = λ s v.
        (Keeps-if (has_unfinished_requests s.scheduler) _ _
            (Keeps-bind (on_scheduler-Wired λ ids. step-Sound (known rt ids))
              λ updated. Keeps-bind (on_tokens-Wired updated) λ _. drain-Wired)
            (Keeps-pure tt)).at
          s v;
  }
