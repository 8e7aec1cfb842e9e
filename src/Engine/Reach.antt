-- ===== src/Engine/Reach.antt =====
-- The states that src/wllm/engine/async_engine.py can reach, by the calls of its methods, the rounds of its
-- loop task and the cancellations of its callers, in any order.
pub mod Queues
pub mod Wired
pub mod Steps
use w_llm.Base.{ℕ, Bool, List}
use w_llm.Base.Int.{ℤ}
use w_llm.Api.StopStrings.{Text}
use w_llm.Runtime.{Runtime}
use w_llm.Engine.{AsyncEngine, Request, BeamRequest, start, stop}
use w_llm.Engine.Loop.{run_loop, submit, release, receive, submit_beam, cancel_beam, await_beam}

module _ {rt : Runtime} (decode : List ℕ → Text) where
  -- What runs between two awaits of the event loop.
  pub data Step : AsyncEngine rt → AsyncEngine rt → Type 0 where
    starts : (s : AsyncEngine rt) → Step s (start s)
    stops : (s : AsyncEngine rt) → Step s (stop s).1
    loops : (s : AsyncEngine rt) → Step s (run_loop decode s)
    submits : (r : Request rt) (s : AsyncEngine rt) → Step s (submit decode r s).1
    receives : (id : ℤ) (s : AsyncEngine rt) → Step s (receive decode id s).1
    -- a caller that gives up, or closes the stream
    releases :
        (normally : Bool) (id : ℤ) (s : AsyncEngine rt) → Step s (release decode normally id s).1
    searches : (r : BeamRequest rt) (s : AsyncEngine rt) → Step s (submit_beam decode r s).1
    cancels : (group : ℕ) (s : AsyncEngine rt) → Step s (cancel_beam decode group s)
    awaits : (group : ℕ) (s : AsyncEngine rt) → Step s (await_beam decode group s).1

  pub data Reach (first : AsyncEngine rt) : AsyncEngine rt → Type 0 where
    here : Reach first first
    further : {s s' : AsyncEngine rt} → Reach first s → Step s s' → Reach first s'
