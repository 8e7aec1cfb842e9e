-- ===== src/Quant/Dequant/Formats.antt =====
-- The block formats that dequantize of src/wllm/quant/dequant.py reads.
use w_llm.Base.{
  ℕ, ◌+◌, ◌*◌, ◌/◌, ◌%◌, ◌<◌, ◌≡◌, refl, ◌∙◌, some, List, length, get_elem?, All, arith,
}
use w_llm.Base.Outcome.{ok}
use w_llm.Base.Table.{IsTable}
use w_llm.Quant.Dequant.{
  Float32, by_blocks, flat_rows, rows, row_q8_0, row_q4_0, row_q4_1, row_q6_k, dequantize,
}
use w_llm.Quant.Dequant.Exact.{
  IsByte, block, length-flat_rows, flat_rows-get_elem?, value_q8_0, value_q4_0, value_q4_1,
  row_q8_0-IsTable, row_q4_0-IsTable, row_q4_1-IsTable,
}
use w_llm.Quant.Dequant.SixBits.{value_q6_k, row_q6_k-IsTable}

pub data Format : Type 0 where
  q8_0 q4_0 q4_1 q6_k : Format

abbrev pub type_id : Format → ℕ
type_id q8_0 = 8
type_id q4_0 = 2
type_id q4_1 = 3
type_id q6_k = 14

abbrev pub elements : Format → ℕ
elements q8_0 = 32
elements q4_0 = 32
elements q4_1 = 32
elements q6_k = 256

abbrev pub bytes : Format → ℕ
bytes q8_0 = 34
bytes q4_0 = 18
bytes q4_1 = 20
bytes q6_k = 210

module _ {F : Type 0} (m : Float32 F) where
  -- The value that the layout of a format gives to element i of a block.
  abbrev pub value : Format → List ℕ → ℕ → F
  value q8_0 = value_q8_0 m
  value q4_0 = value_q4_0 m
  value q4_1 = value_q4_1 m
  value q6_k = value_q6_k m

  abbrev row : Format → List ℕ → List F
  row q8_0 = row_q8_0 m
  row q4_0 = row_q4_0 m
  row q4_1 = row_q4_1 m
  row q6_k = row_q6_k m

  row-IsTable :
      (f : Format) (r : List ℕ)
      → length r ≡ bytes f
      → All IsByte r
      → IsTable (row f r) (elements f) (value f r)
  row-IsTable q8_0 = row_q8_0-IsTable m
  row-IsTable q4_0 = row_q4_0-IsTable m
  row-IsTable q4_1 = row_q4_1-IsTable m
  row-IsTable q6_k = row_q6_k-IsTable m

  dequantize-by_blocks :
      (f : Format) (raw : List ℕ) (n : ℕ)
      → dequantize m raw (type_id f) n ≡ by_blocks m (elements f) (bytes f) (row f) raw n
  unfolding dequantize
  dequantize-by_blocks q8_0 raw n = refl
  dequantize-by_blocks q4_0 raw n = refl
  dequantize-by_blocks q4_1 raw n = refl
  dequantize-by_blocks q6_k raw n = refl

  by_blocks_ok :
      (e w n : ℕ) (f : List ℕ → List F) (raw : List ℕ)
      → n % e ≡ 0
      → length raw ≡ n / e * w
      → by_blocks m e w f raw n ≡ ok (flat_rows m f (rows (n / e) w raw))
  by_blocks_ok e w n f raw divides fits = ground arith

  whole_blocks : (f : Format) (n : ℕ) → n % elements f ≡ 0 → n / elements f * elements f ≡ n
  whole_blocks q8_0 n h = omega arith
  whole_blocks q4_0 n h = omega arith
  whole_blocks q4_1 n h = omega arith
  whole_blocks q6_k n h = omega arith

  -- A tensor of whole blocks with exactly their bytes is read; element j of its block b has the value
  -- that the format's layout gives to it, and there are n elements.
  pub dequantize-value :
      (f : Format) (raw : List ℕ) (n : ℕ)
      → All IsByte raw
      → n % elements f ≡ 0
      → length raw ≡ n / elements f * bytes f
      → (xs : List F) × (dequantize m raw (type_id f) n ≡ ok xs)
        × (length xs ≡ n)
        × ((b j : ℕ)
            → b < n / elements f
            → j < elements f
            → get_elem? xs (b * elements f + j) ≡ some (value f (block (bytes f) b raw) j))
  dequantize-value f raw n all_bytes divides fits =
      let k = n / elements f in
      (
        flat_rows m (row f) (rows k (bytes f) raw),
        dequantize-by_blocks f raw n
            ∙ by_blocks_ok (elements f) (bytes f) n (row f) raw divides fits,
        length-flat_rows m (row f) (value f) (bytes f) (elements f) (row-IsTable f) k raw fits
              all_bytes
            ∙ whole_blocks f n divides,
        flat_rows-get_elem? m (row f) (value f) (bytes f) (elements f) (row-IsTable f) k raw fits
            all_bytes,
      )
