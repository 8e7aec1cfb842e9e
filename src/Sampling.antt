-- ===== src/Sampling.antt =====
-- The sampler of src/wllm/engine/sampling.py: a row of logits is a list of floats, a batch a list of
-- rows.
pub mod Filter
pub mod Penalty
use w_llm.Base.{
  ℕ, zero, suc, ◌+◌, Bool, true, false, ◌&&◌, ◌||◌, not, Option, none, some, List, [], ◌∷◌, map,
  length, get_elem?, get_or, set, replicate, elem, ltb, ◌==◌, if◌then◌else◌,
}
use w_llm.Base.Outcome.{Result, ok, err, index_error, shape_mismatch}
use w_llm.Base.Table.{zip_with}
use w_llm.Sequence.{SamplingParams}

-- Float arithmetic and what the code takes from PyTorch: of one row the softmax, its logarithm, the
-- running sums, the descending sort with the places it took its values from, and the place of the
-- largest value; of all rows a draw from each.
pub record Sampler (F R : Type 0) : Type 0 where
  pub zero_f : F
  pub one_f : F
  pub least_temperature : F
  pub neg_inf : F
  pub eq_f : F → F → Bool
  pub lt_f : F → F → Bool
  pub mul_f : F → F → F
  pub div_f : F → F → F
  pub softmax : List F → List F
  pub log_softmax : List F → List F
  pub cumsum : List F → List F
  pub sort_descending : List F → List (F × ℕ)
  pub argmax : List F → ℕ
  pub multinomial : List (List F) → R → List ℕ × R

-- sorted(set(ids)): each of the ids once.
abbrev pub insert_once : ℕ → List ℕ → List ℕ
insert_once n [] = n ∷ []
insert_once n (m ∷ ms) =
    let rest = insert_once n ms in
    if n == m then m ∷ ms else if ltb n m then n ∷ m ∷ ms else m ∷ rest

unfoldable pub sorted_set : List ℕ → List ℕ
sorted_set [] = []
sorted_set (n ∷ ns) = insert_once n (sorted_set ns)

module _ {A : Type 0} where
  -- row[idx]
  unfoldable pub gather : List A → List ℕ → Result (List A)
  gather row [] = ok []
  gather row (i ∷ idx) = elim (get_elem? row i) [
    | none ↦ err index_error
    | some a ↦ elim (gather row idx) [ err e ↦ err e | ok rest ↦ ok (a ∷ rest) ]
  ]

  -- row[idx] = values, and out.scatter_(-1, idx, values), for places inside of the row
  unfoldable pub scatter : List A → List ℕ → List A → List A
  scatter row (i ∷ idx) (a ∷ values) = scatter (set row i a) idx values
  scatter row _ _ = row

module _ {F R : Type 0} (s : Sampler F R) where
  open s use {
    zero_f, one_f, least_temperature, neg_inf, eq_f, lt_f, mul_f, div_f, softmax, log_softmax,
    cumsum, sort_descending, argmax, multinomial,
  }

  -- row.masked_fill(~mask, -inf)
  abbrev pub mask_row : List Bool → List F → List F
  mask_row mask row = zip_with (λ allowed x. if allowed then x else neg_inf) mask row

  -- A row and its mask, of the size of the vocabulary.
  abbrev pub masked : Option (List Bool) → List F → Result (List F)
  masked none row = ok row
  masked (some mask) row =
      if length mask == length row then ok (mask_row mask row) else err shape_mismatch

  unfoldable pub apply_token_mask :
      List (List F) → List (Option (List Bool)) → Result (List (List F))
  apply_token_mask logits [] = ok logits
  apply_token_mask [] (none ∷ masks) = apply_token_mask [] masks
  apply_token_mask [] (some mask ∷ masks) = err index_error
  apply_token_mask (row ∷ logits) (mask ∷ masks) = elim (masked mask row) [
    | err e ↦ err e
    | ok row' ↦ elim (apply_token_mask logits masks) [ err e ↦ err e | ok rest ↦ ok (row' ∷ rest) ]
  ]

  abbrev pub mask_if_given :
      List (List F) → Option (List (Option (List Bool))) → Result (List (List F))
  mask_if_given logits none = ok logits
  mask_if_given logits (some masks) = apply_token_mask logits masks

  abbrev pub penalised : F → F → F
  penalised penalty x = if lt_f zero_f x then div_f x penalty else mul_f x penalty

  -- One row of apply_repetition_penalty.
  unfoldable pub penalise_row : List ℕ → F → List F → Result (List F)
  unfolding sorted_set gather scatter
  penalise_row [] penalty row = ok row
  penalise_row (id ∷ ids) penalty row =
      if eq_f penalty one_f then ok row else (elim (gather row (sorted_set (id ∷ ids))) [
        | err e ↦ err e
        | ok values ↦ ok (scatter row (sorted_set (id ∷ ids)) (map (penalised penalty) values))
      ])

  unfoldable pub apply_repetition_penalty :
      List (List F) → List (List ℕ) → List F → Result (List (List F))
  unfolding penalise_row
  apply_repetition_penalty (row ∷ logits) (ids ∷ generated_ids) (penalty ∷ penalties) =
      elim (penalise_row ids penalty row) [
        | err e ↦ err e
        | ok row' ↦ elim (apply_repetition_penalty logits generated_ids penalties) [
          | err e ↦ err e
          | ok rest ↦ ok (row' ∷ rest)
        ]
      ]
  apply_repetition_penalty logits _ _ = ok logits

  -- What `keep` has at a rank, given the probability there, the running sum and the largest one.
  abbrev pub keeps : ℕ → F → F → F → ℕ → F → F → Bool
  keeps top_k top_p min_p max_prob rank prob cumprob =
      let first = rank == 0 in
      let over_p = not first && lt_f top_p cumprob in
      let below_min_p = not first && lt_f prob (mul_f min_p max_prob) in
      (not (ltb 0 top_k) || ltb rank (if ltb top_k 1 then 1 else top_k))
      && ((not (lt_f top_p one_f) || not over_p) && (not (lt_f zero_f min_p) || not below_min_p))

  unfoldable pub keep_flags : ℕ → F → F → F → ℕ → List F → List F → List Bool
  keep_flags top_k top_p min_p max_prob rank (prob ∷ probs) (cumprob ∷ cumprobs) =
      keeps top_k top_p min_p max_prob rank prob cumprob
      ∷ keep_flags top_k top_p min_p max_prob (suc rank) probs cumprobs
  keep_flags top_k top_p min_p max_prob rank _ _ = []

  abbrev pub values_of : List (F × ℕ) → List F
  values_of sorted = map (λ (p : F × ℕ). p.0) sorted

  abbrev pub places_of : List (F × ℕ) → List ℕ
  places_of sorted = map (λ (p : F × ℕ). p.1) sorted

  -- One row of _filter_top_k_top_p_min_p.
  unfoldable pub filter_row : List F → ℕ → F → F → List F
  unfolding keep_flags scatter
  filter_row row top_k top_p min_p =
      let sorted = sort_descending row in
      let probs = softmax (values_of sorted) in
      let keep = keep_flags top_k top_p min_p (get_or probs 0 zero_f) 0 probs (cumsum probs) in
      scatter (replicate (length row) neg_inf) (places_of sorted) (mask_row keep (values_of sorted))

  -- The temperature of a row, clamped from below.
  abbrev pub clamped : SamplingParams F → F
  clamped p = if lt_f least_temperature p.temperature then p.temperature else least_temperature

  -- The draws of one row: its greedy token, what it is sampled from, and its log-probabilities.
  abbrev pub row_probs : SamplingParams F → List F → List F
  row_probs p row =
      softmax (filter_row (map (λ x. div_f x (clamped p)) row) p.top_k p.top_p p.min_p)

  abbrev pub row_logprobs : SamplingParams F → List F → List F
  row_logprobs p row =
      let temperature = if eq_f p.temperature zero_f then one_f else clamped p in
      log_softmax (map (λ x. div_f x temperature) row)

  -- torch.where(is_greedy, greedy_tokens, sampled_tokens), and the log-probability of each
  unfoldable pub choose : List (SamplingParams F) → List (List F) → List ℕ → List (ℕ × F)
  choose (p ∷ params) (row ∷ logits) (sampled ∷ tokens) =
      let token = if eq_f p.temperature zero_f then argmax row else sampled in
      (token, get_or (row_logprobs p row) token neg_inf) ∷ choose params logits tokens
  choose _ _ _ = []

  unfoldable pub sample :
      List (List F)
      → List (SamplingParams F)
      → List (List ℕ)
      → R
      → Option (List (Option (List Bool)))
      → Result (List (ℕ × F) × R)
  unfolding apply_token_mask apply_repetition_penalty filter_row choose
  sample logits params generated_ids generator token_masks =
      elim (mask_if_given logits token_masks) [
        | err e ↦ err e
        | ok allowed ↦
            elim (apply_repetition_penalty allowed generated_ids
              (map (λ (p : SamplingParams F). p.repetition_penalty) params)) [
                | err e ↦ err e
                | ok rows ↦
                    let drawn = multinomial (zip_with row_probs params rows) generator in
                    ok (choose params rows drawn.0, drawn.1)
              ]
      ]
