-- ===== src/Tests/Quant.antt =====
-- The dequantisation of src/wllm/quant/dequant.py of one Q4_1 block, over expressions for floats.
use w_llm.Base.{
  ℕ, ◌+◌, ◌*◌, ◌<◌, ◌≡◌, refl, arith, some, List, ◌∷◌, length, get_elem?, replicate, All, zero, suc,
}
use w_llm.Base.Int.{ℤ, pos}
use w_llm.Base.Outcome.{ok}
use w_llm.Quant.Dequant.{Float32, dequantize}
use w_llm.Quant.Dequant.Exact.{block}
use w_llm.Quant.Dequant.Formats.{q4_1, value, dequantize-value}

-- A float as the expression that computes it.
pub data Term : Type 0 where
  half : ℕ → ℕ → Term
  single : ℕ → ℕ → ℕ → ℕ → Term
  of_int : ℤ → Term
  plus minus times : Term → Term → Term

abbrev pub terms : Float32 Term
terms = record {
  half = half;
  single = single;
  of_int = of_int;
  add = plus;
  sub = minus;
  mul = times;
}

abbrev one_block : List ℕ
one_block = 1 ∷ 60 ∷ 2 ∷ 61 ∷ 0x21 ∷ replicate 15 0x43

module _ (b : ℕ) (h : b < 256) where
  All-replicate : (n : ℕ) → All (λ c. c < 256) (replicate n b)
  All-replicate zero = tt
  All-replicate (suc n) = (h, All-replicate n)

All-one_block : All (λ b. b < 256) one_block
All-one_block = (
  omega arith,
  (omega arith, (omega arith, (omega arith, (omega arith, All-replicate 0x43 (omega arith) 15)))),
)

dequantize-value_example :
    (xs : List Term) × (dequantize terms one_block 3 32 ≡ ok xs)
    × (length xs ≡ 32)
    × ((b j : ℕ)
        → b < 1
        → j < 32
        → get_elem? xs (b * 32 + j) ≡ some (value terms q4_1 (block 20 b one_block) j))
dequantize-value_example = dequantize-value terms q4_1 one_block 32 All-one_block refl refl

-- The high nibble of the first byte stands at 16.
high_nibble_run :
    value terms q4_1 (block 20 0 one_block) 16
    ≡ plus (times (of_int (pos 2)) (half 1 60)) (half 2 61)
high_nibble_run = refl
