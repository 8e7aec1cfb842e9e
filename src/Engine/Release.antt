-- ===== src/Engine/Release.antt =====
-- What is left of a call of generate (src/wllm/engine/async_engine.py) that its caller gave up.
use w_llm.Base.{ℕ, ◌≡◌, refl, false, none, List}
use w_llm.Base.Int.{ℤ, int_eq}
use w_llm.Base.Dict.{get}
use w_llm.Base.Outcome.{ok}
use w_llm.Api.StopStrings.{Text}
use w_llm.Kv.Ownership.{Inv}
use w_llm.Runtime.{Runtime}
use w_llm.Scheduler.{member, remove_first}
use w_llm.Scheduler.Cancel.{Alone, Gone, cancel-Gone, get-remove_self}
use w_llm.Engine.{AsyncEngine}
use w_llm.Engine.Loop.{release}

module _ {rt : Runtime} (decode : List ℕ → Text) where
  -- A caller gives up before the end. If its request stands once in at most one queue of the scheduler
  -- and has a block table exactly if it runs and a copy on the host only if it is swapped out, the cache's
  -- books are in order, and the engine lists its queue at most once, then nothing is left behind: the call
  -- returns, the request is in no queue of the scheduler, has no block table and no copy on the host, the
  -- books are in order, and the engine has neither its queue nor
  -- its detokenizer nor its count.
  pub release-Gone :
      (id : ℤ) (s : AsyncEngine rt)
      → Alone id s.scheduler
      → Inv s.scheduler.cache
      → member id (remove_first id s.queues) ≡ false
      → ((release decode false id s).0 ≡ ok tt)
        × Gone id (release decode false id s).1.scheduler
        × (member id (release decode false id s).1.queues ≡ false)
        × (get (release decode false id s).1.detokenizers id ≡ none)
        × (get (release decode false id s).1.reported_count id ≡ none)
  unfolding release
  release-Gone id s alone v once =
      let (done, gone) = cancel-Gone id s.scheduler alone v in
      rw done
        (refl, gone, once, get-remove_self s.detokenizers id, get-remove_self s.reported_count id)
