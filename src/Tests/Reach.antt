-- ===== src/Tests/Reach.antt =====
-- A run of src/wllm/engine/async_engine.py over the toy model: a request is submitted and served.
use w_llm.Base.{ℕ, ◌≡◌, true, none, List, [], ◌∷◌}
use w_llm.Base.Outcome.{ok}
use w_llm.Api.StopStrings.{Text}
use w_llm.Kv.Manager.{init}
use w_llm.Kv.Ownership.{init-Inv}
use w_llm.Kv.Safe.{Safe, Inv-Safe}
use w_llm.Kv.Safe.Sharing.{Sharing}
use w_llm.Scheduler.{Scheduler, new_scheduler}
use w_llm.Engine.{AsyncEngine, Request, new_engine, start, on_token}
use w_llm.Engine.Loop.{submit, run_loop}
use w_llm.Engine.Reach.{Reach, here, further, starts, submits, loops}
use w_llm.Engine.Reach.Wired.{Wired}
use w_llm.Engine.Reach.Steps.{Reach-Wired, Reach-Sharing, Reach-on_token}
use w_llm.Tests.Toy.{toy}
use w_llm.Tests.Beams.{toy_runtime}
use w_llm.Tests.Preempt.{swapping, seq_seven}

abbrev letters : List ℕ → Text
letters ts = ts

abbrev idle : Scheduler toy_runtime
idle = new_scheduler toy_runtime swapping (init toy 1 8 2 true) 0 none

idle-Safe : Safe idle.cache
idle-Safe = Inv-Safe _ (init-Inv toy 1 8 2 true)

abbrev question : Request toy_runtime
question = record {
  prompt_token_ids = 1 ∷ 2 ∷ 3 ∷ [];
  max_new_tokens = 2;
  sampling_params = none;
  eos_token_id = none;
  stop_token_ids = [];
  guide = none;
  lora_id = none;
}

abbrev asked : AsyncEngine toy_runtime
asked = (submit letters question (start (new_engine toy_runtime idle))).1

abbrev served : AsyncEngine toy_runtime
served = run_loop letters asked

served-Reach : Reach letters (new_engine toy_runtime idle) served
served-Reach = further (further (further here (starts _)) (submits question _)) (loops asked)

Reach-Wired_example : Wired served
Reach-Wired_example = Reach-Wired letters idle served idle-Safe served-Reach

Reach-Sharing_example : Sharing served.scheduler.cache
Reach-Sharing_example = Reach-Sharing letters idle served idle-Safe served-Reach

Reach-on_token_example : (on_token {rt = toy_runtime} letters seq_seven served).0 ≡ ok tt
Reach-on_token_example = Reach-on_token letters idle served seq_seven idle-Safe served-Reach
