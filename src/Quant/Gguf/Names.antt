-- ===== src/Quant/Gguf/Names.antt =====
-- What _map_tensor_name (src/wllm/quant/gguf_loader.py) makes of a tensor of a layer.
use w_llm.Base.{ℕ, ◌≡◌, refl, true, false, none, some, [], ◌∷◌, ◌++◌, All, elem, text_eq, arith}
use w_llm.Base.Dict.{get}
use w_llm.Base.Text.{codes}
use w_llm.Api.StopStrings.{Text}
use w_llm.Quant.Gguf.{
  block_tensor_map, is_digit, digits, line, after_digits, match_block, map_tensor_name,
}

digits-append :
    (idx rest : Text)
    → All (λ c. is_digit c ≡ true) idx
    → digits (idx ++ b'.' ∷ rest) ≡ (idx, b'.' ∷ rest)
unfolding digits
digits-append [] rest h = refl
digits-append (c ∷ idx) rest h = rw (h.0, digits) (rw (digits-append idx rest h.1) refl)

line_all : (t : Text) → elem 10 t ≡ false → line t ≡ t
unfolding line
line_all [] h = refl
line_all (c ∷ t) h = ground (arith, line_all t)

absent_empty : {m : Text} → ¬ (none ≡ some m)
absent_empty = cc

-- A tensor of a layer, "blk.<digits>.<rest>", whose rest is in one line and in the table, gets the name
-- of the same layer and of the table's entry.
pub map_tensor_name-block :
    (c : ℕ) (idx rest mapped : Text)
    → All (λ d. is_digit d ≡ true) (c ∷ idx)
    → elem 10 rest ≡ false
    → get block_tensor_map rest ≡ some mapped
    → map_tensor_name (codes "blk." ++ c ∷ idx ++ b'.' ∷ rest)
      ≡ some (codes "model.layers." ++ c ∷ idx ++ b'.' ∷ mapped)
unfolding map_tensor_name match_block after_digits get
map_tensor_name-block c idx [] mapped h one_line found = absurd (absent_empty found)
map_tensor_name-block c idx (e ∷ rest) mapped h one_line found =
    rw (digits-append (c ∷ idx) (e ∷ rest) h) (rw (line_all (e ∷ rest) one_line) (rw found refl))
