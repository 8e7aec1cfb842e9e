-- ===== src/Engine/Failure.antt =====
-- What a failure of the loop task of src/wllm/engine/async_engine.py leaves to the calls that wait.
use w_llm.Base.{
  ℕ, ◌≡◌, refl, ◌∙◌, sym, nat_eq, true, false, Option, none, some, List, [], ◌∷◌, ◌++◌, arith,
}
use w_llm.Base.Int.{ℤ, int_eq, int_beq_iff}
use w_llm.Base.Dict.{Dict, get}
use w_llm.Base.Outcome.{Error}
use w_llm.Runtime.{Runtime}
use w_llm.Scheduler.{member, remove_first}
use w_llm.Engine.{
  AsyncEngine, Item, failure, Future, pending, resolved, failed, items_of, put_items, fail_queues,
  fail_futures, fail_all_pending,
}
use w_llm.Engine.Report.{items_of-put_items}

-- A call that does not listen is told nothing.
items_of-fail_queues_other :
    (e : Error) (id : ℤ) (ids : List ℤ) (d : Dict ℤ (List Item))
    → member id ids ≡ false
    → items_of (fail_queues e ids d) id ≡ items_of d id
unfolding fail_queues
items_of-fail_queues_other e id [] d h = refl
items_of-fail_queues_other e id (j ∷ ids) d h = ground (
  arith,
  items_of-fail_queues_other e id ids (put_items j (failure e ∷ []) d),
  items_of-put_items j id (failure e ∷ []) d,
)

items_of-fail_queues :
    (e : Error) (id : ℤ) (ids : List ℤ) (d : Dict ℤ (List Item))
    → member id ids ≡ true
    → member id (remove_first id ids) ≡ false
    → items_of (fail_queues e ids d) id ≡ items_of d id ++ failure e ∷ []
unfolding fail_queues
items_of-fail_queues e id [] d h once = cc
items_of-fail_queues e id (j ∷ ids) d h once = ground (
  arith,
  items_of-fail_queues e id ids (put_items j (failure e ∷ []) d),
  items_of-fail_queues_other e id ids (put_items j (failure e ∷ []) d),
  items_of-put_items j id (failure e ∷ []) d,
  int_beq_iff j id,
)

-- What a future is after the failure.
abbrev settled : Error → Option Future → Option Future
settled e none = none
settled e (some pending) = some (failed e)
settled e (some (resolved r why)) = some (resolved r why)
settled e (some (failed f)) = some (failed f)

settled_done : (e : Error) (r : Option Future) → ¬ (settled e r ≡ some pending)
settled_done e none = cc
settled_done e (some pending) = cc
settled_done e (some (resolved r why)) = cc
settled_done e (some (failed f)) = cc

get-fail_futures :
    (e : Error) (g : ℕ) (d : Dict ℕ Future) → get (fail_futures e d) g ≡ settled e (get d g)
unfolding get fail_futures
get-fail_futures e g [] = refl
get-fail_futures e g ((j, pending) ∷ d) = ground (arith, get-fail_futures e g d)
get-fail_futures e g ((j, resolved r why) ∷ d) = ground (arith, get-fail_futures e g d)
get-fail_futures e g ((j, failed f) ∷ d) = ground (arith, get-fail_futures e g d)

module _ {rt : Runtime} where
  -- When the loop fails, a call that listens (its queue stands in the engine once) finds the failure
  -- behind what its queue held; a beam search that was pending fails with the same exception, and none
  -- stays pending; and no queue is listed any longer.
  pub fail_all_pending_complete :
      (e : Error) (s : AsyncEngine rt)
      → ((id : ℤ)
          → member id s.queues ≡ true
          → member id (remove_first id s.queues) ≡ false
          → items_of (fail_all_pending e s).items id ≡ items_of s.items id ++ failure e ∷ [])
        × ((g : ℕ)
            → get s.beam_futures g ≡ some pending
            → get (fail_all_pending e s).beam_futures g ≡ some (failed e))
        × ((g : ℕ) → ¬ (get (fail_all_pending e s).beam_futures g ≡ some pending))
        × ((fail_all_pending e s).queues ≡ [])
  unfolding fail_all_pending
  fail_all_pending_complete e s = (
    λ id h once. items_of-fail_queues e id s.queues s.items h once,
    λ g h. get-fail_futures e g s.beam_futures ∙ rw h refl,
    λ g h. settled_done e (get s.beam_futures g) (sym (get-fail_futures e g s.beam_futures) ∙ h),
    refl,
  )
