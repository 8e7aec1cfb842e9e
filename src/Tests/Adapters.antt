-- ===== src/Tests/Adapters.antt =====
-- The adapters of src/wllm/engine/lora.py: a batch of three rows, of which two use adapter 5.
use w_llm.Base.{ℕ, ◌+◌, ◌-◌, ◌*◌, ◌≡◌, refl, Option, none, some, List, [], ◌∷◌}
use w_llm.Base.Int.{ℤ, pos}
use w_llm.Base.Outcome.{ok}
use w_llm.Base.Text.{codes, join_by}
use w_llm.Api.StopStrings.{Text}
use w_llm.Lora.{Key, Weights, LoraRegistry, parse_lora_key, apply_lora_delta}
use w_llm.Lora.Rows.{rowwise}
use w_llm.Lora.Delta.{own_row, apply_lora_delta-rowwise}
use w_llm.Lora.Key.{parse_lora_key-join_by}

abbrev q_proj : Key
q_proj = (pos 0, codes "q_proj")

abbrev one_adapter : LoraRegistry ℕ ℕ
one_adapter = (5, (q_proj, record { a = 2; b = 3; scale = 1 }) ∷ []) ∷ []

abbrev product : Weights ℕ ℕ → ℕ → ℕ
product w x = x * w.a * w.b * w.scale

abbrev plus : ℕ → ℕ → ℕ
plus a b = a + b

abbrev three_rows : List (Option ℕ)
three_rows = some 5 ∷ none ∷ some 5 ∷ []

apply_lora_delta-rowwise_example :
    apply_lora_delta product plus
      (λ ids. ids)
      (1 ∷ 2 ∷ 3 ∷ [])
      (10 ∷ 20 ∷ 30 ∷ [])
      (some three_rows)
      (some one_adapter)
      q_proj
    ≡ ok (
        rowwise
          (own_row product plus one_adapter q_proj)
          three_rows
          (1 ∷ 2 ∷ 3 ∷ [])
          (10 ∷ 20 ∷ 30 ∷ []))
apply_lora_delta-rowwise_example =
    apply_lora_delta-rowwise product plus one_adapter q_proj (λ ids. ids) three_rows
      (1 ∷ 2 ∷ 3 ∷ []) (10 ∷ 20 ∷ 30 ∷ []) (λ a ids. refl) refl refl

-- The ints of one digit.
abbrev one_digit : Text → Option ℤ
one_digit (c ∷ []) = some (pos (c - 48))
one_digit _ = none

parse_lora_key-join_by_example :
    parse_lora_key one_digit (
      join_by b'.' (
        codes "model"
        ∷ codes "layers"
        ∷ codes "7"
        ∷ codes "mlp"
        ∷ codes "up_proj"
        ∷ codes "lora_A"
        ∷ codes "weight"
        ∷ []))
    ≡ some (pos 7, codes "up_proj")
parse_lora_key-join_by_example =
    parse_lora_key-join_by one_digit (codes "model" ∷ []) (codes "lora_A" ∷ codes "weight" ∷ [])
      (codes "7") (codes "mlp") (codes "up_proj") (pos 7)
      (refl, (refl, (refl, (refl, (refl, (refl, (refl, tt))))))) (refl, tt) refl
