-- ===== src/Llama/Rows.antt =====
-- Rows of a layer in src/wllm/models/llama.py that a list in two parts gives: those of the first part, then
-- those of the second.
use w_llm.Base.{ℕ, suc, ◌+◌, ◌≡◌, refl, ◌∙◌, ap, List, [], ◌∷◌, ◌++◌, map, length, arith}
use w_llm.Base.Table.{zip_with}
use w_llm.Llama.{Torch, rotated}

pub length-map : {X Y : Type 0} (f : X → Y) (xs : List X) → length (map f xs) ≡ length xs
length-map f [] = refl
length-map f (x ∷ xs) = ap suc (length-map f xs)

pub length-zip_with :
    {X Y Z : Type 0} (f : X → Y → Z) (xs : List X) (ys : List Y)
    → length ys ≡ length xs
    → length (zip_with f xs ys) ≡ length xs
length-zip_with f [] ys h = refl
length-zip_with f (x ∷ xs) [] h = absurd (omega (arith, h))
length-zip_with f (x ∷ xs) (y ∷ ys) h = ap suc (length-zip_with f xs ys (omega (arith, h)))

pub zip_with-append :
    {X Y Z : Type 0} (f : X → Y → Z) (xs xs' : List X) (ys ys' : List Y)
    → length ys ≡ length xs
    → zip_with f (xs ++ xs') (ys ++ ys') ≡ zip_with f xs ys ++ zip_with f xs' ys'
zip_with-append f [] xs' [] ys' h = refl
zip_with-append f [] xs' (y ∷ ys) ys' h = absurd (omega (arith, h))
zip_with-append f (x ∷ xs) xs' [] ys' h = absurd (omega (arith, h))
zip_with-append f (x ∷ xs) xs' (y ∷ ys) ys' h =
    ap (λ zs. f x y ∷ zs) (zip_with-append f xs xs' ys ys' (omega (arith, h)))

module _ {P A S : Type 0} (tc : Torch P A S) where
  pub length-rotated : (pos : ℕ) (ps : List P) → length (rotated tc pos ps) ≡ length ps
  unfolding rotated
  length-rotated pos [] = refl
  length-rotated pos (p ∷ ps) = ap suc (length-rotated (pos + 1) ps)

  pub rotated-append :
      (pos : ℕ) (ps ps' : List P)
      → rotated tc pos (ps ++ ps') ≡ rotated tc pos ps ++ rotated tc (pos + length ps) ps'
  unfolding rotated
  rotated-append pos [] ps' = ap (λ n. rotated tc n ps') (omega arith)
  rotated-append pos (p ∷ ps) ps' =
      ap (λ rs. tc.rotate pos p ∷ rs)
        (rotated-append (pos + 1) ps ps'
          ∙ ap (λ n. rotated tc (pos + 1) ps ++ rotated tc n ps') (omega arith))
