-- ===== src/Quant/Dequant/SixBits.antt =====
-- The values of Q6_K blocks in src/wllm/quant/dequant.py.
use w_llm.Base.{
  ltb→lt, Bool-cases, inl, inr, ℕ, ◌+◌, ◌-◌, ◌*◌, ◌/◌, ◌%◌, ◌^◌, ◌≤◌, ◌<◌, ◌≡◌, refl, ap, sym, ◌∙◌,
  List, [], ◌∷◌, ◌++◌, length, take, drop, replicate, map, All, ltb, if◌then◌else◌, arith,
}
use native.Mathlib.Nat.{div-le_self}
use w_llm.Base.Bits.{bit_and, shift_right, low_nibble, low_pair, six_bits}
use w_llm.Base.Table.{
  zip_with, IsTable, IsTable-ext, IsTable-take, IsTable-drop, IsTable-append, IsTable-replicate,
  IsTable-map, IsTable-zip_with,
}
use w_llm.Quant.Dequant.{
  Float32, int8, minus, six_bit, repeat_16, scaled, dequantize_q6_k_half, row_q6_k,
}
use w_llm.Quant.Dequant.Exact.{IsByte, byte, row_bytes-IsTable, All-get}

-- A table continued by the list behind it.
continue :
    {A : Type 0} (start n k : ℕ) (xs ys : List A) (f : ℕ → A)
    → IsTable xs n (λ i. f (start + i))
    → IsTable ys k (λ i. f (start + n + i))
    → IsTable (xs ++ ys) (n + k) (λ i. f (start + i))
continue start n k xs ys f t u =
    IsTable-ext (xs ++ ys) (n + k) (n + k) _ _ refl joined (IsTable-append n k xs ys _ _ t u)
  where
    joined :
        (i : ℕ)
        → i < n + k
        → (if ltb i n then f (start + i) else f (start + n + (i - n))) ≡ f (start + i)
    joined i lt = ground arith

shifted :
    {A : Type 0} (a b n : ℕ) (xs : List A) (f : ℕ → A)
    → IsTable xs n (λ i. f (a + (b + i)))
    → IsTable xs n (λ i. f (a + b + i))
shifted a b n xs f t = IsTable-ext xs n n _ _ refl (λ i lt. ap f (omega arith)) t

module _ {F : Type 0} (m : Float32 F) where
  open m use {half, of_int, mul}

  -- The six bits: four of `low`, and the pair of `high` at bit k.
  six_bit-value :
      (k low high : ℕ)
      → low < 16
      → shift_right high k < 256
      → six_bit m k low high ≡ minus (low + 16 * (shift_right high k % 4)) 32
  six_bit-value k low high small byte_k =
      let pair = low_pair (shift_right high k) byte_k in
      let joined = six_bits low (shift_right high k % 4) small (omega arith) in
      rw pair (rw joined refl)

  repeat_16-IsTable :
      (scales : List F) (n : ℕ) (s : ℕ → F)
      → IsTable scales (2 + n) s
      → IsTable (repeat_16 m scales) 32 (λ i. s (i / 16))
  repeat_16-IsTable [] n s t = absurd (omega arith)
  repeat_16-IsTable (s₀ ∷ []) n s (k, e, h, t) = absurd (omega arith)
  repeat_16-IsTable (s₀ ∷ s₁ ∷ scales) n s (k, e, h, (k', e', h', t)) =
      IsTable-ext (replicate 16 s₀ ++ replicate 16 s₁) 32 32 _ _ refl spread (
        IsTable-append 16 16 (replicate 16 s₀) (replicate 16 s₁) (λ i. s₀) (λ i. s₁)
          (IsTable-replicate 16 s₀) (IsTable-replicate 16 s₁))
    where
      spread : (i : ℕ) → i < 32 → (if ltb i 16 then s₀ else s₁) ≡ s (i / 16)
      spread i lt = ground arith

  -- The value at l of a quarter, with its sub-block's scale.
  abbrev pub quarter_value : (ℕ → ℕ) → (ℕ → ℕ) → (ℕ → F) → F → ℕ → ℕ → ℕ → F
  quarter_value ql qh scale d quarter l sub =
      let low = ql (quarter % 2 * 32 + l) in
      let four = if ltb quarter 2 then low % 16 else low / 16 in
      let two = shift_right (qh l) (2 * quarter) % 4 in
      mul (mul d (scale sub)) (of_int (minus (four + 16 * two) 32))

  -- Value p of a half, from its bytes, its scales and d.
  abbrev pub half_value : (ℕ → ℕ) → (ℕ → ℕ) → (ℕ → F) → F → ℕ → F
  half_value ql qh scale d p = quarter_value ql qh scale d (p / 32) (p % 32) (p / 16)

  -- One of the four lists that a half joins: of the low nibbles, or of the high ones.
  quarter-IsTable :
      (q : ℕ) (lows qhs : List ℕ) (scales : List F) (ql qh : ℕ → ℕ) (scale : ℕ → F) (d : F)
      (g : ℕ → ℕ)
      → q < 4
      → IsTable lows 32 (λ i. ql (q % 2 * 32 + i))
      → IsTable qhs 32 qh
      → IsTable scales 8 scale
      → ((i : ℕ) → qh i < 256)
      → ((i : ℕ)
          → g (ql (q % 2 * 32 + i))
            ≡ (if ltb q 2 then ql (q % 2 * 32 + i) % 16 else ql (q % 2 * 32 + i) / 16))
      → ((i : ℕ) → g (ql i) < 16)
      → IsTable
          (scaled m d
            (repeat_16 m (drop (2 * q) scales))
            (zip_with (λ l h. six_bit m (2 * q) (g l) h) lows qhs))
          32
          (λ i. half_value ql qh scale d (32 * q + i))
  quarter-IsTable q lows qhs scales ql qh scale d g q4 t u v bytes low small =
      IsTable-ext _ 32 32 _ _ refl same (
        IsTable-zip_with (λ sc x. mul (mul d sc) (of_int x)) (repeat_16 m (drop (2 * q) scales)) _
          32 _ _
          (repeat_16-IsTable (drop (2 * q) scales) (6 - 2 * q) _ (
            IsTable-drop (2 * q) (2 + (6 - 2 * q)) scales scale (
              IsTable-ext scales 8 (2 * q + (2 + (6 - 2 * q))) _ _ (omega arith) (λ i lt. refl) v)))
          (IsTable-zip_with (λ l h. six_bit m (2 * q) (g l) h) lows qhs 32 _ _ t u))
    where
      same :
          (i : ℕ)
          → i < 32
          → mul
              (mul d (scale (2 * q + i / 16)))
              (of_int (six_bit m (2 * q) (g (ql (q % 2 * 32 + i))) (qh i)))
            ≡ half_value ql qh scale d (32 * q + i)
      same i lt =
          let v = quarter_value ql qh scale d in
          let a : (32 * q + i) / 32 ≡ q = omega arith in
          let b : (32 * q + i) % 32 ≡ i = omega arith in
          let c : (32 * q + i) / 16 ≡ 2 * q + i / 16 = omega arith in
          ap (λ z. mul (mul d (scale (2 * q + i / 16))) (of_int z))
            (six_bit-value (2 * q) (g (ql (q % 2 * 32 + i))) (qh i) (small (q % 2 * 32 + i))
                (omega (arith, div-le_self (qh i) (2 ^ (2 * q)), bytes i))
              ∙ ap (λ n. minus (n + 16 * (shift_right (qh i) (2 * q) % 4)) 32) (low i))
          ∙ sym (
              ap (λ x. v x ((32 * q + i) % 32) ((32 * q + i) / 16)) a
              ∙ ap (λ x. v q x ((32 * q + i) / 16)) b
              ∙ ap (v q i) c)

  -- The 128 values of a half.
  half-IsTable :
      (qls qhs : List ℕ) (scales : List F) (ql qh : ℕ → ℕ) (scale : ℕ → F) (d : F)
      → IsTable qls 64 ql
      → IsTable qhs 32 qh
      → IsTable scales 8 scale
      → ((i : ℕ) → ql i < 256)
      → ((i : ℕ) → qh i < 256)
      → IsTable (dequantize_q6_k_half m qls qhs scales d) 128 (half_value ql qh scale d)
  half-IsTable qls qhs scales ql qh scale d t u v low_bytes high_bytes =
      let lo : IsTable (take 32 qls) 32 (λ i. ql (0 + i)) =
        IsTable-ext (take 32 qls) 32 32 _ _ refl (λ i lt. ap ql (omega arith))
          (IsTable-take 32 32 qls ql t) in
      let hi = IsTable-drop 32 32 qls ql t in
      let low : (i : ℕ) → bit_and (ql i) 15 ≡ ql i % 16 = λ i. low_nibble (ql i) (low_bytes i) in
      let f = half_value ql qh scale d in
      IsTable-ext _ 128 128 _ f refl (λ i lt. ap f (omega arith))
        (continue 0 32 96 _ _ f
          (quarter-IsTable 0 (take 32 qls) qhs scales ql qh scale d (λ l. bit_and l 15)
            (omega arith) lo u v high_bytes (λ i. low (0 + i)) (λ i. omega (arith, low i)))
          (continue 32 32 64 _ _ f
            (quarter-IsTable 1 (drop 32 qls) qhs scales ql qh scale d (λ l. bit_and l 15)
              (omega arith) hi u v high_bytes (λ i. low (32 + i)) (λ i. omega (arith, low i)))
            (continue 64 32 32 _ _ f
              (quarter-IsTable 2 (take 32 qls) qhs scales ql qh scale d (λ l. shift_right l 4)
                (omega arith) lo u v high_bytes (λ i. refl) (λ i. omega (arith, low_bytes i)))
              (quarter-IsTable 3 (drop 32 qls) qhs scales ql qh scale d (λ l. shift_right l 4)
                (omega arith) hi u v high_bytes (λ i. refl) (λ i. omega (arith, low_bytes i))))))

  -- Value p of half h of a block: bytes 0 to 127 are ql, 128 to 191 qh, 192 to 207 the scales, and
  -- 208 d; each half of the block has half of each.
  abbrev pub block_value : List ℕ → ℕ → ℕ → F
  block_value row h p =
      half_value (λ k. byte row (64 * h + k)) (λ k. byte row (128 + 32 * h + k))
        (λ k. of_int (int8 (byte row (192 + 8 * h + k)))) (half (byte row 208) (byte row 209)) p

  abbrev pub value_q6_k : List ℕ → ℕ → F
  value_q6_k row i = block_value row (i / 128) (i % 128)

  pub row_q6_k-IsTable :
      (row : List ℕ)
      → length row ≡ 210
      → All IsByte row
      → IsTable (row_q6_k m row) 256 (value_q6_k row)
  row_q6_k-IsTable row e bytes =
      let d = half (byte row 208) (byte row 209) in
      let scale : ℕ → F = λ n. of_int (int8 (byte row n)) in
      let ql = IsTable-take 128 82 row _ (row_bytes-IsTable row 0 210 e) in
      let qh = IsTable-take 64 18 (drop 128 row) _ (row_bytes-IsTable row 128 82 e) in
      let scales =
        IsTable-map (λ b. of_int (int8 b)) (take 16 (drop 192 row)) 16 _
          (IsTable-take 16 2 (drop 192 row) _ (row_bytes-IsTable row 192 18 e)) in
      let first =
        half-IsTable (take 64 (take 128 row)) (take 32 (take 64 (drop 128 row)))
          (take 8 (map (λ b. of_int (int8 b)) (take 16 (drop 192 row)))) (λ k. byte row (0 + k))
          (λ k. byte row (128 + k)) (λ k. scale (192 + k)) d
          (IsTable-take 64 64 (take 128 row) _ ql)
          (IsTable-take 32 32 (take 64 (drop 128 row)) _ qh) (IsTable-take 8 8 _ _ scales)
          (λ k. All-get row (0 + k) bytes) (λ k. All-get row (128 + k) bytes) in
      let second =
        half-IsTable (drop 64 (take 128 row)) (drop 32 (take 64 (drop 128 row)))
          (drop 8 (map (λ b. of_int (int8 b)) (take 16 (drop 192 row)))) (λ k. byte row (64 + k))
          (λ k. byte row (160 + k)) (λ k. scale (200 + k)) d
          (shifted 0 64 64 _ (byte row) (IsTable-drop 64 64 (take 128 row) _ ql))
          (shifted 128 32 32 _ (byte row) (IsTable-drop 32 32 (take 64 (drop 128 row)) _ qh))
          (shifted 192 8 8 _ scale (IsTable-drop 8 8 _ _ scales)) (λ k. All-get row (64 + k) bytes)
          (λ k. All-get row (160 + k) bytes) in
      IsTable-ext _ 256 256 _ _ refl joined (IsTable-append 128 128 _ _ _ _ first second)
    where
      joined :
          (i : ℕ)
          → i < 256
          → (if ltb i 128 then block_value row 0 i else block_value row 1 (i - 128))
            ≡ value_q6_k row i
      joined i lt = elim (Bool-cases (ltb i 128)) [
        | inl small ↦
            let h : i / 128 ≡ 0 = omega (arith, ltb→lt i 128 small) in
            let p : i % 128 ≡ i = omega (arith, ltb→lt i 128 small) in
            rw small (sym (ap (λ x. block_value row x (i % 128)) h ∙ ap (block_value row 0) p))
        | inr large ↦
            let beyond : 128 ≤ i = ground arith in
            let h : i / 128 ≡ 1 = omega arith in
            let p : i % 128 ≡ i - 128 = omega arith in
            rw large (sym (ap (λ x. block_value row x (i % 128)) h ∙ ap (block_value row 1) p))
      ]
