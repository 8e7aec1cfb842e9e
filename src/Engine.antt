-- ===== src/Engine.antt =====
-- AsyncEngine of src/wllm/engine/async_engine.py. The event loop runs one piece of code between two
-- awaits at a time; each such piece is a function on the engine's state.
pub mod Failure
pub mod Loop
pub mod Release
pub mod Report
pub mod Reach
use w_llm.Base.{
  ℕ, zero, suc, ◌+◌, Bool, true, false, Option, none, some, List, [], ◌∷◌, ◌++◌, length, drop, not,
  if◌then◌else◌, ◌==◌, nat_eq,
}
use w_llm.Base.Int.{ℤ, pos, int_eq}
use w_llm.Base.Dict.{Dict, get, put, remove}
use w_llm.Base.Outcome.{Act, Result, ok, err, Error, key_error, ◌>>=◌, ◌>>◌, pure, raise}
use w_llm.Api.StopStrings.{Text}
use w_llm.Sequence.{Sequence, SeqStatus, SamplingParams, is_finished}
use w_llm.Detokenizer.{IncrementalDetokenizer, new_detokenizer, add_token, add_tokens}
use w_llm.Runtime.{Runtime}
use w_llm.BeamSearch.{BeamGroup, FinishReason, new_group}
use w_llm.Scheduler.{
  Scheduler, Seq, add_request, add_beam_request, cancel, has_unfinished_requests, member,
  remove_first,
}
use w_llm.Scheduler.Step.{step}

-- What stands in a request's queue: a piece of text, _DONE, or an exception.
pub data Item : Type 0 where
  delta : Text → Item
  done : Item
  failure : Error → Item

-- A future of a beam search, with what the awaiting call then reads of its group.
pub data Future : Type 0 where
  pending : Future
  resolved : Option (List ℕ) → Option FinishReason → Future
  failed : Error → Future

-- self._loop_task: None, a running task, or one that a failure ended.
pub data LoopTask : Type 0 where
  no_task running_task : LoopTask
  failed_task : Error → LoopTask

module _ (rt : Runtime) where
  open rt use {Float, Guide}

  -- `queues` lists the ids that self._queues holds, oldest first; `items` has the content of each queue
  -- object, which its caller reads on after self._queues has dropped it.
  pub record AsyncEngine : Type 0 where
    pub scheduler : Scheduler rt
    pub next_seq_id : ℕ
    pub queues : List ℤ
    pub items : Dict ℤ (List Item)
    pub detokenizers : Dict ℤ IncrementalDetokenizer
    pub reported_count : Dict ℤ ℕ
    pub next_group_id : ℕ
    pub beam_futures : Dict ℕ Future
    pub loop_task : LoopTask

  -- AsyncEngine(...)
  abbrev pub new_engine : Scheduler rt → AsyncEngine
  new_engine scheduler = record {
    scheduler = scheduler;
    next_seq_id = 0;
    queues = [];
    items = [];
    detokenizers = [];
    reported_count = [];
    next_group_id = 0;
    beam_futures = [];
    loop_task = no_task;
  }

  -- What a call of generate is given.
  pub record Request : Type 0 where
    pub prompt_token_ids : List ℕ
    pub max_new_tokens : ℕ
    pub sampling_params : Option (SamplingParams Float)
    pub eos_token_id : Option ℕ
    pub stop_token_ids : List ℕ
    pub guide : Option Guide
    pub lora_id : Option ℕ

  -- What a call of generate_beam_search is given.
  pub record BeamRequest : Type 0 where
    pub prompt_token_ids : List ℕ
    pub max_new_tokens : ℕ
    pub num_beams : ℕ
    pub length_penalty : Float
    pub eos_token_id : Option ℕ
    pub stop_token_ids : List ℕ
    pub lora_id : Option ℕ

-- What a queue holds.
abbrev pub items_of : Dict ℤ (List Item) → ℤ → List Item
items_of d id = elim (get d id) [ none ↦ [] | some xs ↦ xs ]

-- queue.put_nowait for each item.
unfoldable pub put_items : ℤ → List Item → Dict ℤ (List Item) → Dict ℤ (List Item)
put_items id xs d = put d id (items_of d id ++ xs)

abbrev pub deltas_of : List Text → List Item
deltas_of [] = []
deltas_of (t ∷ ts) = delta t ∷ deltas_of ts

-- queue.put_nowait(exc) for every waiting call.
unfoldable pub fail_queues : Error → List ℤ → Dict ℤ (List Item) → Dict ℤ (List Item)
unfolding put_items
fail_queues e [] d = d
fail_queues e (id ∷ ids) d = fail_queues e ids (put_items id (failure e ∷ []) d)

module _ {rt : Runtime} (decode : List ℕ → Text) where
  open rt use {Float, Guide}

  abbrev pub already_reported : ℤ → AsyncEngine rt → ℕ
  already_reported id s = elim (get s.reported_count id) [ none ↦ 0 | some n ↦ n ]

  -- The end of _on_token: the stream of a finished sequence is closed and forgotten.
  unfoldable pub close_stream : ℤ → AsyncEngine rt → AsyncEngine rt
  unfolding put_items
  close_stream id s = record s {
    items = put_items id (done ∷ []) s.items;
    queues = remove_first id s.queues;
    detokenizers = remove s.detokenizers id;
    reported_count = remove s.reported_count id;
  }

  -- The tokens since the last report, through the detokenizer, to the queue.
  unfoldable pub report : ℤ → List ℕ → IncrementalDetokenizer → AsyncEngine rt → AsyncEngine rt
  unfolding put_items
  report id output detok s =
      let r = add_tokens decode (drop (already_reported id s) output) detok in
      record s {
        items = put_items id (deltas_of r.0) s.items;
        detokenizers = put s.detokenizers id r.1;
        reported_count = put s.reported_count id (length output);
      }

  unfoldable pub on_token : Seq rt → Act (AsyncEngine rt) (Unit {0})
  unfolding close_stream report
  on_token q s =
      if member q.seq_id s.queues
      then (elim (get s.detokenizers q.seq_id) [
        | none ↦ (err key_error, s)
        | some detok ↦
            let s' = report q.seq_id q.output_token_ids detok s in
            (ok tt, if is_finished q then close_stream q.seq_id s' else s')
      ])
      else (ok tt, s)

  -- for seq in updated: self._on_token(seq)
  unfoldable pub on_tokens : List ℤ → Act (AsyncEngine rt) (Unit {0})
  unfolding on_token
  on_tokens [] s = (ok tt, s)
  on_tokens (id ∷ ids) s = elim (get s.scheduler.store id) [
    | none ↦ (err key_error, s)
    | some q ↦ (do on_token q; on_tokens ids) s
  ]

module _ {F : Type 0} where
  -- A future that is still pending takes the result of its group.
  unfoldable pub resolve : BeamGroup F → Dict ℕ Future → Dict ℕ Future
  resolve g d = elim (get d g.group_id) [
    | some pending ↦ put d g.group_id (resolved g.result g.finish_reason)
    | _ ↦ d
  ]

  unfoldable pub resolve_all : List (BeamGroup F) → Dict ℕ Future → Dict ℕ Future
  unfolding resolve
  resolve_all [] d = d
  resolve_all (g ∷ gs) d = resolve_all gs (resolve g d)

-- The futures as their awaiting calls see them, after self._beam_futures was cleared.
unfoldable pub fail_futures : Error → Dict ℕ Future → Dict ℕ Future
fail_futures e [] = []
fail_futures e ((id, pending) ∷ d) = (id, failed e) ∷ fail_futures e d
fail_futures e ((id, resolved r why) ∷ d) = (id, resolved r why) ∷ fail_futures e d
fail_futures e ((id, failed f) ∷ d) = (id, failed f) ∷ fail_futures e d

module _ {rt : Runtime} where
  open rt use {Float, Guide}

  unfoldable pub drain_completed_beam_groups : AsyncEngine rt → AsyncEngine rt
  unfolding resolve_all
  drain_completed_beam_groups s = record s {
    beam_futures = resolve_all s.scheduler.completed_beam_groups s.beam_futures;
    scheduler = record s.scheduler { completed_beam_groups = [] };
  }

  unfoldable pub fail_all_pending : Error → AsyncEngine rt → AsyncEngine rt
  unfolding fail_queues fail_futures
  fail_all_pending e s = record s {
    items = fail_queues e s.queues s.items;
    queues = [];
    detokenizers = [];
    beam_futures = fail_futures e s.beam_futures;
  }

  abbrev pub start : AsyncEngine rt → AsyncEngine rt
  start s = elim s.loop_task [ no_task ↦ record s { loop_task = running_task } | _ ↦ s ]

  -- Awaiting a task that failed raises its exception, and the engine keeps the task.
  abbrev pub stop : AsyncEngine rt → Result (Unit {0}) × AsyncEngine rt
  stop s = elim s.loop_task [
    | no_task ↦ (ok tt, s)
    | running_task ↦ (ok tt, record s { loop_task = no_task })
    | failed_task e ↦ (err e, s)
  ]
