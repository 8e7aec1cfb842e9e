-- ===== src/Engine/Reach/Queues.antt =====
-- The list of ids that stands for self._queues of src/wllm/engine/async_engine.py.
use w_llm.Base.{◌≡◌, true, false, ◌||◌, List, [], ◌∷◌, ◌++◌, arith}
use w_llm.Base.Int.{ℤ, int_eq, int_beq, int_beq_iff}
use w_llm.Scheduler.{member, remove_first}

pub member-append :
    (id y : ℤ) (xs : List ℤ) → member id (xs ++ y ∷ []) ≡ (member id xs || int_beq y id)
member-append id y [] = ground arith
member-append id y (x ∷ xs) = ground (arith, member-append id y xs)

-- What is left after a removal was there before.
pub member-remove_first :
    (id j : ℤ) (xs : List ℤ) → member id (remove_first j xs) ≡ true → member id xs ≡ true
member-remove_first id j [] h = h
member-remove_first id j (x ∷ xs) h = ground (arith, member-remove_first id j xs)

pub once-remove_first :
    (id j : ℤ) (xs : List ℤ)
    → member id (remove_first id xs) ≡ false
    → member id (remove_first id (remove_first j xs)) ≡ false
once-remove_first id j [] h = h
once-remove_first id j (x ∷ xs) h =
    ground
      (arith, once-remove_first id j xs, member-remove_first id id xs, member-remove_first id j xs)

pub once-append :
    (id y : ℤ) (xs : List ℤ)
    → member id (remove_first id xs) ≡ false
    → member y xs ≡ false
    → member id (remove_first id (xs ++ y ∷ [])) ≡ false
once-append id y [] h new = ground arith
once-append id y (x ∷ xs) h new =
    ground (arith, once-append id y xs, member-append id y xs, int_beq_iff y id)
