-- ===== src/Speculative.antt =====
-- propose_ngram_draft of src/wllm/engine/speculative.py.
pub mod Draft
use w_llm.Base.{
  ℕ, zero, suc, ◌+◌, ◌-◌, Bool, true, false, Option, none, some, List, [], ◌∷◌, length, take, drop,
  ltb, if◌then◌else◌, list_beq,
}

-- tuple(search_space[start : start + n]) == query
unfoldable pub occurs_at : List ℕ → ℕ → ℕ → List ℕ → Bool
occurs_at space n start query = list_beq (take n (drop start space)) query

-- history[start + n : start + n + k]
unfoldable pub draft_at : List ℕ → ℕ → ℕ → ℕ → List ℕ
draft_at history n k start = take k (drop (start + n) history)

unfoldable pub non_empty : List ℕ → Option (List ℕ) → Option (List ℕ)
non_empty [] rest = rest
non_empty (x ∷ xs) rest = some (x ∷ xs)

-- The loop over `start`, from `rounds - 1` down to 0.
unfoldable pub search_back : List ℕ → List ℕ → List ℕ → ℕ → ℕ → ℕ → Option (List ℕ)
unfolding non_empty occurs_at draft_at
search_back history space query n k zero = none
search_back history space query n k (suc start) =
    let rest = search_back history space query n k start in
    if occurs_at space n start query then non_empty (draft_at history n k start) rest else rest

-- history[-n:] and history[:-n] for 0 < n; Python reads -0 as 0, so that for n = 0 the query is the
-- whole history and the search space is empty.
unfoldable pub last_n : ℕ → List ℕ → List ℕ
last_n zero history = history
last_n (suc n) history = drop (length history - suc n) history

unfoldable pub but_last_n : ℕ → List ℕ → List ℕ
but_last_n zero history = []
but_last_n (suc n) history = take (length history - suc n) history

unfoldable pub propose_ngram_draft : List ℕ → ℕ → ℕ → Option (List ℕ)
unfolding search_back last_n but_last_n
propose_ngram_draft history n k =
    if ltb (length history) (n + 1)
    then none
    else (let space = but_last_n n history in
        search_back history space (last_n n history) n k (length space + 1 - n))
