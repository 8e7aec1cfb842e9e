-- ===== src/Engine/Loop.antt =====
-- The task and the calls of src/wllm/engine/async_engine.py: the loop, generate and
-- generate_beam_search, cut at their awaits.
use w_llm.Base.{
  ℕ, ◌+◌, Bool, true, Option, none, some, List, [], ◌∷◌, ◌++◌, if◌then◌else◌, ◌==◌, nat_eq,
}
use w_llm.Base.Int.{ℤ, pos, int_eq}
use w_llm.Base.Dict.{get, put, remove}
use w_llm.Base.Outcome.{Act, Result, ok, err, ◌>>=◌, ◌>>◌, pure, raise}
use w_llm.Api.StopStrings.{Text}
use w_llm.Sequence.{SeqStatus, SamplingParams}
use w_llm.Detokenizer.{new_detokenizer}
use w_llm.Runtime.{Runtime, Floats}
use w_llm.BeamSearch.{BeamGroup, FinishReason, new_group}
use w_llm.Scheduler.{
  Scheduler, Seq, add_request, add_beam_request, cancel, has_unfinished_requests, remove_first,
}
use w_llm.Scheduler.Step.{step}
use w_llm.Engine.{
  AsyncEngine, Request, BeamRequest, Item, Future, delta, done, failure, pending, resolved, failed,
  running_task, failed_task, items_of, on_tokens, drain_completed_beam_groups, fail_all_pending,
}

module _ {F : Type 0} where
  -- The defaults of SamplingParams.
  abbrev pub default_params : Floats F → SamplingParams F
  default_params floats = record {
    temperature = floats.zero_f;
    top_k = 0;
    top_p = floats.one_f;
    min_p = floats.zero_f;
    repetition_penalty = floats.one_f;
    seed = none;
  }

  abbrev pub params_or_default : Floats F → Option (SamplingParams F) → SamplingParams F
  params_or_default floats none = default_params floats
  params_or_default floats (some p) = p

  -- The beam groups without the first one of this id.
  abbrev pub remove_group : ℕ → List (BeamGroup F) → List (BeamGroup F)
  remove_group id [] = []
  remove_group id (g ∷ gs) = if g.group_id == id then gs else g ∷ remove_group id gs

-- What one `await queue.get()` of generate gives its caller.
pub data Received : Type 0 where
  waits : Received
  yields : Text → Received
  ends : Received

module _ {rt : Runtime} (decode : List ℕ → Text) where
  open rt use {Float, Guide, floats}

  abbrev pub on_scheduler : {A : Type 0} → Act (Scheduler rt) A → Act (AsyncEngine rt) A
  on_scheduler f s = ((f s.scheduler).0, record s { scheduler = (f s.scheduler).1 })

  abbrev pub drain : Act (AsyncEngine rt) (Unit {0})
  drain s = (ok tt, drain_completed_beam_groups s)

  -- The body of the `try` in _run_loop, up to its awaits.
  unfoldable pub loop_body : Act (AsyncEngine rt) (Unit {0})
  unfolding on_tokens
  loop_body s =
      (if has_unfinished_requests s.scheduler
          then (do updated ← on_scheduler step; on_tokens decode updated; drain)
          else pure tt)
        s

  -- The two ends of a round: an exception is passed to every waiting call, and ends the task.
  abbrev pub end_round : Result (Unit {0}) → AsyncEngine rt → AsyncEngine rt
  end_round (ok _) s = s
  end_round (err e) s = record (fail_all_pending e s) { loop_task = failed_task e }

  -- One round of the loop task.
  unfoldable pub run_loop : AsyncEngine rt → AsyncEngine rt
  unfolding loop_body fail_all_pending
  run_loop s = elim s.loop_task [ running_task ↦ end_round (loop_body s).0 (loop_body s).1 | _ ↦ s ]

  abbrev pub sequence_for : ℤ → Request rt → Seq rt
  sequence_for id r = record {
    seq_id = id;
    prompt_token_ids = r.prompt_token_ids;
    max_new_tokens = r.max_new_tokens;
    eos_token_id = r.eos_token_id;
    stop_token_ids = r.stop_token_ids;
    sampling_params = params_or_default floats r.sampling_params;
    output_token_ids = [];
    logprobs = [];
    status = SeqStatus.waiting;
    guide = r.guide;
    lora_id = r.lora_id;
  }

  -- generate, up to its first await: the new id, and the engine with the request queued.
  unfoldable pub submit : Request rt → AsyncEngine rt → ℤ × AsyncEngine rt
  unfolding add_request
  submit r s =
      let id = pos s.next_seq_id in
      (
        id,
        record s {
          next_seq_id = s.next_seq_id + 1;
          queues = s.queues ++ id ∷ [];
          items = put s.items id [];
          detokenizers = put s.detokenizers id new_detokenizer;
          scheduler = add_request (sequence_for id r) s.scheduler;
        },
      )

  -- The `finally` of generate: a sequence that nobody listens to any longer is cancelled.
  unfoldable pub release : Bool → ℤ → Act (AsyncEngine rt) (Unit {0})
  release completed_normally id s =
      (do
        if completed_normally then pure tt else on_scheduler (cancel id)
        (λ s'. (
          ok tt,
          record s' {
            queues = remove_first id s'.queues;
            detokenizers = remove s'.detokenizers id;
            reported_count = remove s'.reported_count id;
          },
        )))
        s

  abbrev pub set_items : ℤ → List Item → AsyncEngine rt → AsyncEngine rt
  set_items id xs s = record s { items = put s.items id xs }

  abbrev pub take_item : ℤ → List Item → Act (AsyncEngine rt) Received
  take_item id [] s = (ok waits, s)
  take_item id (delta t ∷ rest) s = (ok (yields t), set_items id rest s)
  take_item id (done ∷ rest) s = (do release true id; pure ends) (set_items id rest s)
  take_item id (failure e ∷ rest) s = (do release true id; raise e) (set_items id rest s)

  -- One round of the loop in generate.
  unfoldable pub receive : ℤ → Act (AsyncEngine rt) Received
  unfolding release
  receive id s = take_item id (items_of s.items id) s

  -- generate_beam_search, up to its await.
  unfoldable pub submit_beam : BeamRequest rt → AsyncEngine rt → ℕ × AsyncEngine rt
  unfolding new_group add_beam_request
  submit_beam r s =
      let id = s.next_group_id in
      (
        id,
        record s {
          next_group_id = id + 1;
          beam_futures = put s.beam_futures id pending;
          scheduler =
              add_beam_request
                (new_group floats id r.prompt_token_ids r.max_new_tokens r.num_beams
                  r.length_penalty r.eos_token_id r.stop_token_ids r.lora_id)
                s.scheduler;
        },
      )

  abbrev pub forget_future : ℕ → AsyncEngine rt → AsyncEngine rt
  forget_future id s = record s { beam_futures = remove s.beam_futures id }

  -- A cancelled await of a beam search takes its group out of the scheduler, if it still runs.
  unfoldable pub cancel_beam : ℕ → AsyncEngine rt → AsyncEngine rt
  cancel_beam id s = forget_future id (record s {
    scheduler = record s.scheduler { beam_groups = remove_group id s.scheduler.beam_groups };
  })

  abbrev pub take_result :
      ℕ → Option Future → Act (AsyncEngine rt) (Option (Text × Option FinishReason))
  take_result id (some (resolved (some token_ids) why)) s =
      (ok (some (decode token_ids, why)), forget_future id s)
  take_result id (some (failed e)) s = (err e, forget_future id s)
  take_result id _ s = (ok none, s)

  -- The end of generate_beam_search, if its future is done: the text and the reason, or the exception.
  unfoldable pub await_beam : ℕ → Act (AsyncEngine rt) (Option (Text × Option FinishReason))
  await_beam id s = take_result id (get s.beam_futures id) s
