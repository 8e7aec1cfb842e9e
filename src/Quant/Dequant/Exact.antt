-- ===== src/Quant/Dequant/Exact.antt =====
-- The values that src/wllm/quant/dequant.py reads from the raw bytes, against the layouts that the
-- module's docstring gives.
use w_llm.Base.{
  ℕ, zero, suc, ◌+◌, ◌-◌, ◌*◌, ◌/◌, ◌%◌, ◌<◌, ◌≡◌, refl, ap, sym, ◌∙◌, some, List, [], ◌∷◌, ◌++◌,
  length, length-take, length-drop, length-append, get_elem?, get_elem?-append_left,
  get_elem?-append_right, get_or, take, drop, drop-drop, All, ltb, if◌then◌else◌, arith,
}
use native.Mathlib.Nat.{suc-mul, zero-mul}
use w_llm.Base.Bits.{bit_and, shift_right, low_nibble}
use w_llm.Base.Int.{pos}
use w_llm.Base.Table.{
  IsTable, IsTable-length, IsTable-get_elem?, IsTable-get_or, IsTable-ext, IsTable-drop,
  IsTable-append, IsTable-map,
}
use w_llm.Quant.Dequant.{Float32, int8, rows, flat_rows, row_q8_0, nibbles, row_q4_0, row_q4_1}

abbrev pub IsByte : ℕ → Type 0
IsByte b = b < 256

-- The b-th block of a tensor.
abbrev pub block : ℕ → ℕ → List ℕ → List ℕ
block width b raw = take width (drop (b * width) raw)

abbrev pub byte : List ℕ → ℕ → ℕ
byte row i = get_or row i 0

pub All-take : (n : ℕ) (xs : List ℕ) → All IsByte xs → All IsByte (take n xs)
All-take zero xs h = tt
All-take (suc n) [] h = tt
All-take (suc n) (x ∷ xs) h = (h.0, All-take n xs h.1)

pub All-drop : (n : ℕ) (xs : List ℕ) → All IsByte xs → All IsByte (drop n xs)
All-drop zero xs h = h
All-drop (suc n) [] h = tt
All-drop (suc n) (x ∷ xs) h = All-drop n xs h.1

pub All-get : (xs : List ℕ) (i : ℕ) → All IsByte xs → byte xs i < 256
All-get [] i h = omega arith
All-get (x ∷ xs) zero h = h.0
All-get (x ∷ xs) (suc i) h = All-get xs i h.1

-- A width and a number of values for each row, as the rows of one format have.
module _ {F : Type 0} (m : Float32 F) (f : List ℕ → List F) (value : List ℕ → ℕ → F)
    (width elements : ℕ)
    (row_ok : (row : List ℕ)
      → length row ≡ width
      → All IsByte row
      → IsTable (f row) elements (value row)) where
  first-IsTable :
      (k : ℕ) (raw : List ℕ)
      → length raw ≡ suc k * width
      → All IsByte raw
      → IsTable (f (take width raw)) elements (value (take width raw))
  first-IsTable k raw e bytes =
      row_ok (take width raw) (omega (arith, suc-mul k width, length-take width raw))
        (All-take width raw bytes)

  first_row :
      (k : ℕ) (raw : List ℕ)
      → length raw ≡ suc k * width
      → All IsByte raw
      → length (f (take width raw)) ≡ elements
  first_row k raw e bytes =
      IsTable-length (f (take width raw)) elements _ (first-IsTable k raw e bytes)

  rest_length :
      (k : ℕ) (raw : List ℕ) → length raw ≡ suc k * width → length (drop width raw) ≡ k * width
  rest_length k raw e = omega (arith, suc-mul k width, length-drop width raw)

  pub length-flat_rows :
      (k : ℕ) (raw : List ℕ)
      → length raw ≡ k * width
      → All IsByte raw
      → length (flat_rows m f (rows k width raw)) ≡ k * elements
  length-flat_rows zero raw e bytes = omega (arith, zero-mul elements)
  length-flat_rows (suc k) raw e bytes = omega (
    arith,
    suc-mul k width,
    suc-mul k elements,
    length-append (f (take width raw)) (flat_rows m f (rows k width (drop width raw))),
    first_row k raw e bytes,
    length-flat_rows k (drop width raw) (rest_length k raw e) (All-drop width raw bytes),
  )

  pub flat_rows-get_elem? :
      (k : ℕ) (raw : List ℕ)
      → length raw ≡ k * width
      → All IsByte raw
      → (b j : ℕ) → b < k
      → j < elements
      → get_elem? (flat_rows m f (rows k width raw)) (b * elements + j)
        ≡ some (value (block width b raw) j)
  flat_rows-get_elem? zero raw e bytes b j bk je = absurd (omega arith)
  flat_rows-get_elem? (suc k) raw e bytes zero j bk je =
      let row = f (take width raw) in
      let at : zero * elements + j ≡ j = omega (arith, zero-mul elements) in
      let start : block width zero raw ≡ take width raw =
        ap (λ n. take width (drop n raw)) (zero-mul width) in
      ap (get_elem? (row ++ flat_rows m f (rows k width (drop width raw)))) at
      ∙ get_elem?-append_left row _ j (omega (arith, first_row k raw e bytes))
      ∙ IsTable-get_elem? row elements _ (first-IsTable k raw e bytes) j je
      ∙ ap (λ r. some (value r j)) (sym start)
  flat_rows-get_elem? (suc k) raw e bytes (suc b) j bk je =
      let row = f (take width raw) in
      let rest = flat_rows m f (rows k width (drop width raw)) in
      let at : suc b * elements + j ≡ length row + (b * elements + j) =
        omega (arith, suc-mul b elements, first_row k raw e bytes) in
      let later : block width b (drop width raw) ≡ block width (suc b) raw =
        ap (take width) (
          drop-drop (b * width) width raw
          ∙ ap (λ n. drop n raw) (omega (arith, suc-mul b width))) in
      ap (get_elem? (row ++ rest)) at
      ∙ get_elem?-append_right row rest (b * elements + j)
      ∙ flat_rows-get_elem? k (drop width raw) (rest_length k raw e) (All-drop width raw bytes) b j
          (omega arith) je
      ∙ ap (λ r. some (value r j)) later

pub row_bytes-IsTable :
    (row : List ℕ) (k n : ℕ) → length row ≡ k + n → IsTable (drop k row) n (λ i. byte row (k + i))
row_bytes-IsTable row k n e =
    IsTable-drop k n row _
      (IsTable-ext row (length row) (k + n) _ _ e (λ i lt. refl) (IsTable-get_or row 0))

module _ {F : Type 0} (m : Float32 F) where
  open m use {half, of_int, add, sub, mul}

  -- value[i] = qs[i] * d
  abbrev pub value_q8_0 : List ℕ → ℕ → F
  value_q8_0 row i = mul (of_int (int8 (byte row (2 + i)))) (half (byte row 0) (byte row 1))

  -- The low nibble of byte i, or the high nibble of byte i - 16.
  abbrev nibble : List ℕ → ℕ → ℕ
  nibble packed i = if ltb i 16 then byte packed i % 16 else byte packed (i - 16) / 16

  -- value[i] = (nibble[i] - 8) * d
  abbrev pub value_q4_0 : List ℕ → ℕ → F
  value_q4_0 row i =
      mul (sub (of_int (pos (nibble (drop 2 row) i))) (of_int (pos 8)))
        (half (byte row 0) (byte row 1))

  -- value[i] = nibble[i] * d + m
  abbrev pub value_q4_1 : List ℕ → ℕ → F
  value_q4_1 row i =
      add (mul (of_int (pos (nibble (drop 4 row) i))) (half (byte row 0) (byte row 1)))
        (half (byte row 2) (byte row 3))

  pub row_q8_0-IsTable :
      (row : List ℕ)
      → length row ≡ 34
      → All IsByte row
      → IsTable (row_q8_0 m row) 32 (value_q8_0 row)
  row_q8_0-IsTable row e bytes = IsTable-map _ (drop 2 row) 32 _ (row_bytes-IsTable row 2 32 e)

  nibbles-IsTable :
      (packed : List ℕ)
      → length packed ≡ 16
      → All IsByte packed
      → IsTable (nibbles m packed) 32 (λ i. of_int (pos (nibble packed i)))
  nibbles-IsTable packed e bytes =
      let table =
        IsTable-ext packed (length packed) 16 _ _ e (λ i lt. refl) (IsTable-get_or packed 0) in
      IsTable-ext (nibbles m packed) 32 32 _ _ refl (λ i lt. joined i)
        (IsTable-append 16 16 _ _ _ _ (IsTable-map _ packed 16 _ table)
          (IsTable-map _ packed 16 _ table))
    where
      joined :
          (i : ℕ)
          → (if ltb i 16
              then of_int (pos (bit_and (byte packed i) 15))
              else of_int (pos (shift_right (byte packed (i - 16)) 4)))
            ≡ of_int (pos (nibble packed i))
      joined i = ground (arith, low_nibble (byte packed i) (All-get packed i bytes))

  pub row_q4_0-IsTable :
      (row : List ℕ)
      → length row ≡ 18
      → All IsByte row
      → IsTable (row_q4_0 m row) 32 (value_q4_0 row)
  row_q4_0-IsTable row e bytes =
      IsTable-map _ (nibbles m (drop 2 row)) 32 _
        (nibbles-IsTable (drop 2 row) (omega (arith, length-drop 2 row)) (All-drop 2 row bytes))

  pub row_q4_1-IsTable :
      (row : List ℕ)
      → length row ≡ 20
      → All IsByte row
      → IsTable (row_q4_1 m row) 32 (value_q4_1 row)
  row_q4_1-IsTable row e bytes =
      IsTable-map _ (nibbles m (drop 4 row)) 32 _
        (nibbles-IsTable (drop 4 row) (omega (arith, length-drop 4 row)) (All-drop 4 row bytes))
