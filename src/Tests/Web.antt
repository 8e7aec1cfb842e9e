-- ===== src/Tests/Web.antt =====
-- The text filter and the rate limiter of src/wllm/api on small inputs.
use w_llm.Base.{◌++◌, ◌⊎◌}
use w_llm.Api.RateLimit.{bearer, starts_with}
use w_llm.Api.Auth.{passes}
use w_llm.Api.Auth.Gate.{passes-Bearer}
use w_llm.Base.{
  ℕ, ◌+◌, ◌≤◌, ◌≡◌, refl, true, false, none, List, [], ◌∷◌, length, ltb, arith, text_eq,
}
use w_llm.Base.Dict.{Dict, get}
use w_llm.Api.StopStrings.{Text, Outcome, filter}
use w_llm.Api.RateLimit.{Clock, Request, hits_of, dispatch, v1_path}
use w_llm.Api.RateLimit.Limit.{Limited, dispatch-Limited}

abbrev spanning : Outcome
spanning = record { yielded = (1 ∷ 2 ∷ []) ∷ []; stopped_early = true; stopped_inclusive = false }

filter_run : filter ((2 ∷ 3 ∷ []) ∷ []) [] ((1 ∷ 2 ∷ []) ∷ (3 ∷ 4 ∷ []) ∷ []) ≡ spanning
unfolding filter
filter_run = refl

-- Seconds, with a window of sixty.
abbrev seconds : Clock ℕ
seconds = record { expired = λ now hit. ltb (hit + 60) now; retry_after = λ now hit. 1 }

abbrev completion : Request
completion = record { path = v1_path; authorization = []; client_host = none }

abbrev no_hits : Dict Text (List ℕ)
no_hits = []

no_hits-within : (k : Text) → length (hits_of no_hits k) ≤ 1
unfolding hits_of get
no_hits-within k = omega arith

dispatch-Limited_example :
    Limited seconds 1 5 completion no_hits (dispatch seconds 1 5 completion no_hits)
dispatch-Limited_example =
    dispatch-Limited seconds 1 5 completion no_hits (omega arith) no_hits-within

-- The key 5, sent after the word Bearer.
abbrev keyed : Request
keyed = record { path = v1_path; authorization = bearer ++ 5 ∷ []; client_host = none }

keyed-passes : passes ((4 ∷ []) ∷ (5 ∷ []) ∷ []) keyed ≡ true
unfolding passes
keyed-passes = refl

passes-Bearer_example :
    (starts_with v1_path keyed.path ≡ false)
    ⊎ ((key : Text) × (before : List Text) × (after : List Text) × (keyed.authorization
          ≡ bearer ++ key)
        × ((4 ∷ []) ∷ (5 ∷ []) ∷ [] ≡ before ++ key ∷ after))
passes-Bearer_example = passes-Bearer ((4 ∷ []) ∷ (5 ∷ []) ∷ []) keyed keyed-passes

-- Every token is a character of its own.
abbrev as_text : List ℕ → Text
as_text ts = ts
