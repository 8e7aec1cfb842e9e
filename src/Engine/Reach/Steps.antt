-- ===== src/Engine/Reach/Steps.antt =====
-- Every state that src/wllm/engine/async_engine.py reaches has a cache in order and its queues wired up.
use w_llm.Base.{
  ℕ, ◌+◌, ◌≤◌, ◌≡◌, refl, inl, inr, Bool, true, false, Option, none, some, List, [], ◌∷◌, arith,
  if◌then◌else◌, Bool-cases, nat_eq,
}
use w_llm.Base.Int.{ℤ, pos, int_eq, int_beq, int_beq_iff}
use w_llm.Base.Dict.{get, remove, get-put}
use w_llm.Base.Keeps.{Keeps, Keeps-bind, Keeps-pure, Keeps-raise}
use w_llm.Base.Outcome.{Error, Result, ok, err, pure}
use w_llm.Api.StopStrings.{Text}
use w_llm.Kv.Safe.{Safe}
use w_llm.Kv.Safe.Sharing.{Sharing, Safe-Sharing}
use w_llm.Detokenizer.{new_detokenizer}
use w_llm.Runtime.{Runtime}
use w_llm.Scheduler.{Scheduler, Seq, member, remove_first, cancel, add_request, add_beam_request}
use w_llm.Scheduler.Safe.{cancel-Sound}
use w_llm.Engine.{
  AsyncEngine, Request, BeamRequest, Item, Future, delta, done, failure, running_task, no_task,
  failed_task, stop, failed_task, pending, resolved, failed, items_of, on_token, fail_all_pending,
  new_engine, start,
}
use w_llm.Engine.Loop.{
  run_loop, end_round, loop_body, on_scheduler, submit, sequence_for, release, receive, take_item,
  set_items, submit_beam, cancel_beam, await_beam, take_result, Received, ends,
}
use w_llm.Engine.Reach.{
  Step, Reach, here, further, starts, stops, loops, submits, receives, releases, searches, cancels,
  awaits,
}
use w_llm.Engine.Reach.Queues.{member-append, once-append}
use w_llm.Engine.Reach.Wired.{
  Wired, known, aside-Wired, drop_queue-Wired, on_scheduler-Wired, loop_body-Wired,
  new_engine-Wired,
}

-- A new id is none of those given out.
later_id : (n m : ℕ) → m + 1 ≤ n → int_beq (pos m) (pos n) ≡ false
later_id n m h = ground arith

module _ {rt : Runtime} (decode : List ℕ → Text) where
  start-Wired : (s : AsyncEngine rt) → Wired s → Wired (start s)
  start-Wired s v =
      elim s.loop_task
        as (λ t. Wired (elim t [ no_task ↦ record s { loop_task = running_task } | _ ↦ s ])) [
          | no_task ↦ aside-Wired s _ _ _ _ _ v
          | running_task ↦ v
          | failed_task _ ↦ v
        ]

  stop-Wired : (s : AsyncEngine rt) → Wired s → Wired (stop s).1
  stop-Wired s v =
      elim s.loop_task
        as (λ t.
          Wired
            (elim t as (λ _. Result (Unit {0}) × AsyncEngine rt) [
              | no_task ↦ (ok tt, s)
              | running_task ↦ (ok tt, record s { loop_task = no_task })
              | failed_task e ↦ (err e, s)
            ]).1) [ no_task ↦ v | running_task ↦ aside-Wired s _ _ _ _ _ v | failed_task _ ↦ v ]

  -- Every waiting call is failed: no queue is left.
  failed-Wired :
      (e : Error) (s : AsyncEngine rt)
      → Wired s
      → Wired (record (fail_all_pending e s) { loop_task = failed_task e })
  unfolding fail_all_pending
  failed-Wired e s v = record {
    sound = record { cache = v.sound.cache; stored = λ id h. cc };
    once = λ id. refl;
    given_out = λ n h. refl;
    detokenized = λ id h. cc;
  }

  end_round-Wired :
      (r : Result (Unit {0})) (s : AsyncEngine rt) → Wired s → Wired (end_round decode r s)
  end_round-Wired (ok _) s v = v
  end_round-Wired (err e) s v = failed-Wired e s v

  run_loop-Wired : (s : AsyncEngine rt) → Wired s → Wired (run_loop decode s)
  unfolding run_loop
  run_loop-Wired s v =
      elim s.loop_task
        as (λ t. Wired (elim t [
          | running_task ↦ end_round decode (loop_body decode s).0 (loop_body decode s).1
          | _ ↦ s
        ])) [
          | no_task ↦ v
          | running_task ↦
              end_round-Wired (loop_body decode s).0 _ ((loop_body-Wired decode).at s v)
          | failed_task _ ↦ v
        ]

  submit-Wired : (r : Request rt) (s : AsyncEngine rt) → Wired s → Wired (submit decode r s).1
  unfolding submit add_request
  submit-Wired r s v =
      let id = pos s.next_seq_id in
      let q' = sequence_for decode id r in
      record {
        sound = record {
          cache = v.sound.cache;
          stored = λ j h. elim (Bool-cases (int_beq id j)) [
            | inl same ↦ (q', ground (arith, get-put s.scheduler.store id j q'))
            | inr other ↦
                let (q, e) =
                  v.sound.stored j
                    (ground (arith, member-append j id s.queues, int_beq_iff id j)) in
                (q, ground (arith, e, get-put s.scheduler.store id j q'))
          ];
        };
        once = λ j. once-append j id s.queues (v.once j) (v.given_out s.next_seq_id (omega arith));
        given_out = λ n h. ground (
          arith,
          member-append (pos n) id s.queues,
          v.given_out n (omega arith),
          later_id n s.next_seq_id h,
        );
        detokenized = λ j h. elim (Bool-cases (int_beq id j)) [
          | inl same ↦
              (new_detokenizer, ground (arith, get-put s.detokenizers id j new_detokenizer))
          | inr other ↦
              let (d, e) =
                v.detokenized j (ground (arith, member-append j id s.queues, int_beq_iff id j)) in
              (d, ground (arith, e, get-put s.detokenizers id j new_detokenizer))
        ];
      }

  release-Wired : (normally : Bool) (id : ℤ) → Keeps Wired (release {rt = rt} decode normally id)
  unfolding release
  release-Wired normally id = record {
    at = λ s v. (Keeps-bind (cancelled normally) λ _. forgotten).at s v;
  }
    where
      cancelled :
          (normally : Bool)
          → Keeps Wired (if normally then pure tt else on_scheduler {rt = rt} decode (cancel id))
      cancelled true = Keeps-pure tt
      cancelled false = on_scheduler-Wired decode λ ids. cancel-Sound (known rt ids) id

      forgotten : Keeps {S = AsyncEngine rt} {A = Unit {0}} Wired (λ s. (
        ok tt,
        record s {
          queues = remove_first id s.queues;
          detokenizers = remove s.detokenizers id;
          reported_count = remove s.reported_count id;
        },
      ))
      forgotten = record { at = λ s v. drop_queue-Wired id s _ _ v }

  set_items-Wired :
      (id : ℤ) (xs : List Item) (s : AsyncEngine rt) → Wired s → Wired (set_items decode id xs s)
  set_items-Wired id xs s v = aside-Wired s _ _ _ _ _ v

  take_item-Wired : (id : ℤ) (xs : List Item) → Keeps Wired (take_item {rt = rt} decode id xs)
  take_item-Wired id [] = record { at = λ s v. v }
  take_item-Wired id (delta t ∷ rest) = record { at = λ s v. set_items-Wired id rest s v }
  take_item-Wired id (done ∷ rest) = record {
    at = λ s v.
        (Keeps-bind (release-Wired true id) λ _. Keeps-pure ends).at _
          (set_items-Wired id rest s v);
  }
  take_item-Wired id (failure e ∷ rest) = record {
    at = λ s v.
        (Keeps-bind (release-Wired true id) λ _. Keeps-raise {A = Received} e).at _
          (set_items-Wired id rest s v);
  }

  submit_beam-Wired :
      (r : BeamRequest rt) (s : AsyncEngine rt) → Wired s → Wired (submit_beam decode r s).1
  unfolding submit_beam add_beam_request
  submit_beam-Wired r s v = record {
    sound = record { cache = v.sound.cache; stored = v.sound.stored };
    once = v.once;
    given_out = v.given_out;
    detokenized = v.detokenized;
  }

  cancel_beam-Wired :
      (group : ℕ) (s : AsyncEngine rt) → Wired s → Wired (cancel_beam decode group s)
  unfolding cancel_beam
  cancel_beam-Wired group s v = record {
    sound = record { cache = v.sound.cache; stored = v.sound.stored };
    once = v.once;
    given_out = v.given_out;
    detokenized = v.detokenized;
  }

  take_result-Wired :
      (group : ℕ) (o : Option Future) → Keeps Wired (take_result {rt = rt} decode group o)
  take_result-Wired group none = record { at = λ s v. v }
  take_result-Wired group (some pending) = record { at = λ s v. v }
  take_result-Wired group (some (resolved none why)) = record { at = λ s v. v }
  take_result-Wired group (some (resolved (some ts) why)) = record {
    at = λ s v. aside-Wired s _ _ _ _ _ v;
  }
  take_result-Wired group (some (failed e)) = record { at = λ s v. aside-Wired s _ _ _ _ _ v }

  Step-Wired : (s s' : AsyncEngine rt) → Step decode s s' → Wired s → Wired s'
  unfolding receive await_beam
  Step-Wired _ _ (starts s) v = start-Wired s v
  Step-Wired _ _ (stops s) v = stop-Wired s v
  Step-Wired _ _ (loops s) v = run_loop-Wired s v
  Step-Wired _ _ (submits r s) v = submit-Wired r s v
  Step-Wired _ _ (receives id s) v = (take_item-Wired id (items_of s.items id)).at s v
  Step-Wired _ _ (releases normally id s) v = (release-Wired normally id).at s v
  Step-Wired _ _ (searches r s) v = submit_beam-Wired r s v
  Step-Wired _ _ (cancels group s) v = cancel_beam-Wired group s v
  Step-Wired _ _ (awaits group s) v = (take_result-Wired group (get s.beam_futures group)).at s v

  -- An engine is started on a scheduler with a safe cache. Whatever is then called, in whatever order, and
  -- however each call ends, every queue that the engine lists stands there once, has its detokenizer and
  -- its stored sequence, and has an id below the next one.
  pub Reach-Wired :
      (sch : Scheduler rt) (s : AsyncEngine rt)
      → Safe sch.cache
      → Reach decode (new_engine rt sch) s
      → Wired s
  Reach-Wired sch s safe here = new_engine-Wired sch safe
  Reach-Wired sch s safe (further {s = s₀} before step) =
      Step-Wired s₀ s step (Reach-Wired sch s₀ safe before)

  -- In every state that such an engine can reach, errors included, each block has at least as many
  -- references as block tables that it stands in, a block in a block table is not free, no block is free
  -- twice, a free block has no references, and the prefix index names no free block.
  pub Reach-Sharing :
      (sch : Scheduler rt) (s : AsyncEngine rt)
      → Safe sch.cache
      → Reach decode (new_engine rt sch) s
      → Sharing s.scheduler.cache
  Reach-Sharing sch s safe reached = Safe-Sharing _ (Reach-Wired sch s safe reached).sound.cache

  -- In every state that such an engine can reach, reporting a sequence to its queue does not fail.
  pub Reach-on_token :
      (sch : Scheduler rt) (s : AsyncEngine rt) (q : Seq rt)
      → Safe sch.cache
      → Reach decode (new_engine rt sch) s
      → (on_token decode q s).0 ≡ ok tt
  unfolding on_token
  Reach-on_token sch s q safe reached = elim (Bool-cases (member q.seq_id s.queues)) [
    | inr deaf ↦ rw deaf refl
    | inl listens ↦
        let (d, e) = (Reach-Wired sch s safe reached).detokenized q.seq_id listens in
        rw listens (rw e refl)
  ]
