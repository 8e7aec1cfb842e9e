-- ===== src/Api/RateLimit.antt =====
-- RateLimitMiddleware of src/wllm/api/rate_limit.py. What is read of a request are its path, its
-- authorization header and the host of its client; the clock is a parameter.
pub mod Limit
use w_llm.Base.{
  ℕ, zero, suc, ◌+◌, Bool, true, false, Option, none, some, List, [], ◌∷◌, ◌++◌, length, take,
  list_beq, leb, if◌then◌else◌, text_eq,
}
use w_llm.Base.Dict.{Dict, get, put}
use w_llm.Base.Outcome.{Result, ok, err, index_error}
use w_llm.Api.StopStrings.{Text}

-- time.monotonic(): `expired now hit` is now - hit > window_seconds, and `retry_after now hit` is
-- int(max(0.0, window_seconds - (now - hit))) + 1.
pub record Clock (M : Type 0) : Type 0 where
  pub expired : M → M → Bool
  pub retry_after : M → M → ℕ

pub record Request : Type 0 where
  pub path : Text
  -- empty when the header is missing
  pub authorization : Text
  pub client_host : Option Text

pub data Answer : Type 0 where
  -- the path is not limited; the request counts; it is turned away, with the Retry-After header
  unlimited : Answer
  admitted : Answer
  rejected : ℕ → Answer

abbrev pub starts_with : Text → Text → Bool
starts_with prefix t = list_beq (take (length prefix) t) prefix

-- "Bearer ", "/v1/" and "unknown"
abbrev pub bearer : Text
bearer = 66 ∷ 101 ∷ 97 ∷ 114 ∷ 101 ∷ 114 ∷ 32 ∷ []

abbrev pub v1_path : Text
v1_path = 47 ∷ 118 ∷ 49 ∷ 47 ∷ []

abbrev pub unknown : Text
unknown = 117 ∷ 110 ∷ 107 ∷ 110 ∷ 111 ∷ 119 ∷ 110 ∷ []

unfoldable pub client_key : Request → Text
client_key r =
    if starts_with bearer r.authorization
    then r.authorization
    else (elim r.client_host [ none ↦ unknown | some host ↦ host ])

module _ {M : Type 0} where
  -- self._hits[key], where a defaultdict has an empty deque for a new key.
  unfoldable pub hits_of : Dict Text (List M) → Text → List M
  hits_of d k = elim (get d k) [ none ↦ [] | some hits ↦ hits ]

  module _ (clock : Clock M) where
    -- The loop that drops the hits that left the window, oldest first.
    unfoldable pub trim : M → List M → List M
    trim now [] = []
    trim now (h ∷ hits) = let rest = trim now hits in if clock.expired now h then rest else h ∷ hits

    unfoldable pub turn_away : M → List M → Result Answer
    turn_away now [] = err index_error
    turn_away now (h ∷ hits) = ok (rejected (clock.retry_after now h))

    unfoldable pub dispatch :
        ℕ → M → Request → Dict Text (List M) → Result Answer × Dict Text (List M)
    unfolding client_key hits_of trim turn_away
    dispatch limit now r d =
        let key = client_key r in
        let hits = trim now (hits_of d key) in
        if starts_with v1_path r.path
        then (if leb limit (length hits)
            then (turn_away now hits, put d key hits)
            else (ok admitted, put d key (hits ++ now ∷ [])))
        else (ok unlimited, d)
