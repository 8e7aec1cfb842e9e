-- ===== src/Tests/Sampler.antt =====
-- The sampler of src/wllm/engine/sampling.py on rows of natural numbers, over a toy sort.
use w_llm.Base.{
  ℕ, ◌*◌, ◌/◌, ◌≤◌, ◌<◌, ◌≡◌, ◌⊎◌, refl, arith, true, false, some, List, [], ◌∷◌, get_elem?, elem,
  ltb, ◌==◌, if◌then◌else◌,
}
use w_llm.Base.Outcome.{ok}
use w_llm.Sampling.{Sampler, filter_row, penalise_row, penalised}
use w_llm.Sampling.Filter.{Ranked, top_prob, filter_row-Ranked}
use w_llm.Sampling.Penalty.{penalise_row-penalised}

-- The sort and the sums are those of the row 1 6 3; no draw is made.
abbrev toy_sampler : Sampler ℕ ℕ
toy_sampler = record {
  zero_f = 0;
  one_f = 10;
  least_temperature = 1;
  neg_inf = 0;
  eq_f = λ a b. a == b;
  lt_f = λ a b. ltb a b;
  mul_f = λ a b. a * b;
  div_f = λ a b. a / b;
  softmax = λ row. row;
  log_softmax = λ row. row;
  cumsum = λ row. 6 ∷ 9 ∷ 10 ∷ [];
  sort_descending = λ row. (6, 1) ∷ (3, 2) ∷ (1, 0) ∷ [];
  argmax = λ row. 1;
  multinomial = λ rows g. ([], g);
}

abbrev three_logits : List ℕ
three_logits = 1 ∷ 6 ∷ 3 ∷ []

abbrev two : ℕ
two = 2

last-Ranked : Ranked toy_sampler three_logits 2 0 1 1 10
last-Ranked = record {
  once = (refl, (refl, (refl, tt)));
  at = refl;
  inside = omega arith;
  prob_at = refl;
  cum_at = refl;
}

filter_row-Ranked_example :
    let out = get_elem? (filter_row toy_sampler three_logits 2 8 0) 0 in
    (two ≡ 0 → out ≡ some 1)
    × (0 < 2 → 2 ≤ 2 → out ≡ some 0)
    × (ltb 8 10 ≡ true → 0 < 2 → ltb 8 10 ≡ true → out ≡ some 0)
    × (ltb 0 0 ≡ true → 0 < 2 → ltb 1 (0 * top_prob toy_sampler three_logits) ≡ true → out ≡ some 0)
    × ((two ≡ 0) ⊎ (two < 2)
        → (ltb 8 10 ≡ false) ⊎ (ltb 8 10 ≡ false)
        → (ltb 0 0 ≡ false) ⊎ (ltb 1 (0 * top_prob toy_sampler three_logits) ≡ false)
        → out ≡ some 1)
filter_row-Ranked_example = filter_row-Ranked toy_sampler three_logits 2 8 0 2 0 1 1 10 last-Ranked

penalise_row-penalised_example :
    (out : List ℕ) × (penalise_row toy_sampler (1 ∷ 2 ∷ 1 ∷ []) 2 three_logits ≡ ok out)
    × ((t x : ℕ)
        → get_elem? three_logits t ≡ some x
        → get_elem? out t ≡ some (if elem t (1 ∷ 2 ∷ 1 ∷ []) then penalised toy_sampler 2 x else x))
penalise_row-penalised_example =
    penalise_row-penalised toy_sampler (1 ∷ 2 ∷ 1 ∷ []) 2 three_logits
      (omega arith, (omega arith, (omega arith, tt))) refl
