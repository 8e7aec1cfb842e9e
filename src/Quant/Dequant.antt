-- ===== src/Quant/Dequant.antt =====
-- The dequantisation of src/wllm/quant/dequant.py: a tensor of raw bytes is a list of numbers below
-- 256, the float32 result a list of floats; a row of `blocks` is one list.
pub mod Exact
pub mod Formats
pub mod SixBits
use w_llm.Base.{
  ℕ, zero, suc, ◌+◌, ◌-◌, ◌*◌, ◌/◌, ◌%◌, List, [], ◌∷◌, ◌++◌, length, take, drop, replicate, get_or,
  map, ltb, ◌==◌, if◌then◌else◌,
}
use w_llm.Base.Bits.{bit_and, bit_or, shift_left, shift_right}
use w_llm.Base.Table.{zip_with}
use w_llm.Base.Int.{ℤ, pos, negsuc}
use w_llm.Base.Outcome.{Result, ok, err, runtime_error, assertion_error, not_implemented}

-- What the code takes from PyTorch: the value of a little-endian fp16 or fp32 pattern and of an
-- integer as a float32, and float32 arithmetic.
pub record Float32 (F : Type 0) : Type 0 where
  pub half : ℕ → ℕ → F
  pub single : ℕ → ℕ → ℕ → ℕ → F
  pub of_int : ℤ → F
  pub add : F → F → F
  pub sub : F → F → F
  pub mul : F → F → F

abbrev pub qk8_0 : ℕ
qk8_0 = 32

abbrev pub block_bytes_q8_0 : ℕ
block_bytes_q8_0 = 2 + qk8_0

abbrev pub qk4_0 : ℕ
qk4_0 = 32

abbrev pub block_bytes_q4_0 : ℕ
block_bytes_q4_0 = 2 + qk4_0 / 2

abbrev pub qk4_1 : ℕ
qk4_1 = 32

abbrev pub block_bytes_q4_1 : ℕ
block_bytes_q4_1 = 2 + 2 + qk4_1 / 2

abbrev pub qk_k : ℕ
qk_k = 256

abbrev pub block_bytes_q6_k : ℕ
block_bytes_q6_k = qk_k / 2 + qk_k / 4 + qk_k / 16 + 2

abbrev pub ggml_type_f32 : ℕ
ggml_type_f32 = 0

abbrev pub ggml_type_f16 : ℕ
ggml_type_f16 = 1

abbrev pub ggml_type_q4_0 : ℕ
ggml_type_q4_0 = 2

abbrev pub ggml_type_q4_1 : ℕ
ggml_type_q4_1 = 3

abbrev pub ggml_type_q8_0 : ℕ
ggml_type_q8_0 = 8

abbrev pub ggml_type_q6_k : ℕ
ggml_type_q6_k = 14

-- .view(torch.int8) of a byte
abbrev pub int8 : ℕ → ℤ
int8 b = if ltb b 128 then pos b else negsuc (255 - b)

-- a - b on int32, far from its bounds
abbrev pub minus : ℕ → ℕ → ℤ
minus a b = if ltb a b then negsuc (b - a - 1) else pos (a - b)

-- raw.view(n, width), where the sizes agree.
abbrev pub rows : ℕ → ℕ → List ℕ → List (List ℕ)
rows zero width raw = []
rows (suc n) width raw = take width raw ∷ rows n width (drop width raw)

module _ {F : Type 0} (m : Float32 F) where
  open m use {half, single, of_int, add, sub, mul}

  -- The result for each row, one behind the other.
  abbrev pub flat_rows : (List ℕ → List F) → List (List ℕ) → List F
  flat_rows f [] = []
  flat_rows f (r ∷ rs) = f r ++ flat_rows f rs

  -- The two asserts on sizes: the divisibility of n_elements, and that of the view.
  abbrev pub by_blocks : ℕ → ℕ → (List ℕ → List F) → List ℕ → ℕ → Result (List F)
  by_blocks elements width f raw n =
      if n % elements == 0
      then (if length raw == n / elements * width
          then ok (flat_rows f (rows (n / elements) width raw))
          else err runtime_error)
      else err assertion_error

  -- .contiguous().view(torch.float16).to(torch.float32) of two bytes of a row
  abbrev pub half_at : ℕ → List ℕ → F
  half_at i row = half (get_or row i 0) (get_or row (i + 1) 0)

  abbrev pub row_q8_0 : List ℕ → List F
  row_q8_0 row = map (λ q. mul (of_int (int8 q)) (half_at 0 row)) (drop 2 row)

  -- torch.cat([low, high], dim=1)
  abbrev pub nibbles : List ℕ → List F
  nibbles packed =
      map (λ b. of_int (pos (bit_and b 0x0f))) packed
      ++ map (λ b. of_int (pos (shift_right b 4))) packed

  abbrev pub row_q4_0 : List ℕ → List F
  row_q4_0 row = map (λ x. mul (sub x (of_int (pos 8))) (half_at 0 row)) (nibbles (drop 2 row))

  abbrev pub row_q4_1 : List ℕ → List F
  row_q4_1 row = map (λ x. add (mul x (half_at 0 row)) (half_at 2 row)) (nibbles (drop 4 row))

  abbrev pub dequantize_q8_0 : List ℕ → ℕ → Result (List F)
  dequantize_q8_0 = by_blocks qk8_0 block_bytes_q8_0 row_q8_0

  abbrev pub dequantize_q4_0 : List ℕ → ℕ → Result (List F)
  dequantize_q4_0 = by_blocks qk4_0 block_bytes_q4_0 row_q4_0

  abbrev pub dequantize_q4_1 : List ℕ → ℕ → Result (List F)
  dequantize_q4_1 = by_blocks qk4_1 block_bytes_q4_1 row_q4_1

  -- ((nibble | (((qh >> k) & 3) << 4)) - 32 for each nibble and byte of qh
  abbrev pub six_bit : ℕ → ℕ → ℕ → ℤ
  six_bit k nibble h = minus (bit_or nibble (shift_left (bit_and (shift_right h k) 3) 4)) 32

  -- [s₀, s₁].repeat_interleave(16, dim=1) of the first two scales
  abbrev pub repeat_16 : List F → List F
  repeat_16 [] = []
  repeat_16 (s₀ ∷ []) = replicate 16 s₀
  repeat_16 (s₀ ∷ s₁ ∷ scales) = replicate 16 s₀ ++ replicate 16 s₁

  -- d * sc * q
  abbrev pub scaled : F → List F → List ℤ → List F
  scaled d = zip_with (λ sc q. mul (mul d sc) (of_int q))

  abbrev pub dequantize_q6_k_half : List ℕ → List ℕ → List F → F → List F
  dequantize_q6_k_half ql qh scales d =
      let ql_lo = take 32 ql in
      let ql_hi = drop 32 ql in
      let q1 = zip_with (λ l h. six_bit 0 (bit_and l 0xf) h) ql_lo qh in
      let q2 = zip_with (λ l h. six_bit 2 (bit_and l 0xf) h) ql_hi qh in
      let q3 = zip_with (λ l h. six_bit 4 (shift_right l 4) h) ql_lo qh in
      let q4 = zip_with (λ l h. six_bit 6 (shift_right l 4) h) ql_hi qh in
      scaled d (repeat_16 (drop 0 scales)) q1
      ++ (scaled d (repeat_16 (drop 2 scales)) q2
          ++ (scaled d (repeat_16 (drop 4 scales)) q3 ++ scaled d (repeat_16 (drop 6 scales)) q4))

  abbrev pub row_q6_k : List ℕ → List F
  row_q6_k row =
      let ql = take 128 row in
      let qh = take 64 (drop 128 row) in
      let scales = map (λ b. of_int (int8 b)) (take 16 (drop 192 row)) in
      let d = half_at 208 row in
      dequantize_q6_k_half (take 64 ql) (take 32 qh) (take 8 scales) d
      ++ dequantize_q6_k_half (drop 64 ql) (drop 32 qh) (drop 8 scales) d

  abbrev pub dequantize_q6_k : List ℕ → ℕ → Result (List F)
  dequantize_q6_k = by_blocks qk_k block_bytes_q6_k row_q6_k

  -- raw.view(torch.float32).reshape(-1)
  abbrev pub singles : List ℕ → Result (List F)
  singles [] = ok []
  singles (a ∷ b ∷ c ∷ d ∷ raw) =
      let rest = singles raw in elim rest [ ok xs ↦ ok (single a b c d ∷ xs) | err e ↦ err e ]
  singles (a ∷ []) = err runtime_error
  singles (a ∷ b ∷ []) = err runtime_error
  singles (a ∷ b ∷ c ∷ []) = err runtime_error

  -- raw.view(torch.float16).reshape(-1).to(torch.float32)
  abbrev pub halves : List ℕ → Result (List F)
  halves [] = ok []
  halves (a ∷ b ∷ raw) =
      let rest = halves raw in elim rest [ ok xs ↦ ok (half a b ∷ xs) | err e ↦ err e ]
  halves (a ∷ []) = err runtime_error

  abbrev pub first_elements : ℕ → Result (List F) → Result (List F)
  first_elements n (ok xs) = ok (take n xs)
  first_elements n (err e) = err e

  unfoldable pub dequantize : List ℕ → ℕ → ℕ → Result (List F)
  dequantize raw ggml_type n =
      if ggml_type == ggml_type_f32
      then first_elements n (singles raw)
      else if ggml_type == ggml_type_f16
      then first_elements n (halves raw)
      else if ggml_type == ggml_type_q8_0
      then dequantize_q8_0 raw n
      else if ggml_type == ggml_type_q4_0
      then dequantize_q4_0 raw n
      else if ggml_type == ggml_type_q4_1
      then dequantize_q4_1 raw n
      else if ggml_type == ggml_type_q6_k
      then dequantize_q6_k raw n
      else err not_implemented
