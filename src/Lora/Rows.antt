-- ===== src/Lora/Rows.antt =====
-- The rows that apply_lora_delta (src/wllm/engine/lora.py) selects for an adapter, and passes over all
-- rows.
use w_llm.Base.{
  ℕ, suc, ◌≡◌, refl, ap, ◌∙◌, inl, inr, Bool, true, false, Option, none, some, List, [], ◌∷◌, map,
  length, get_elem?, set, elem, count, ◌||◌, ◌==◌, if◌then◌else◌, arith, Option-cases,
}
use w_llm.Base.Outcome.{Result, ok, err}
use w_llm.Lora.{rows_with, unique_ids, index_select, index_add}

-- Whether a row uses the adapter.
abbrev pub users : ℕ → List (Option ℕ) → Bool
users a [] = false
users a (none ∷ ls) = users a ls
users a (some l ∷ ls) = (l == a) || users a ls

-- Each adapter in use is walked once.
pub count-unique_ids :
    (a : ℕ) (ls : List (Option ℕ)) (seen : List ℕ)
    → count a (unique_ids ls seen) ≡ (if elem a seen then 0 else if users a ls then 1 else 0)
unfolding unique_ids
count-unique_ids a [] seen = ground arith
count-unique_ids a (none ∷ ls) seen = count-unique_ids a ls seen
count-unique_ids a (some l ∷ ls) seen =
    ground (arith, count-unique_ids a ls seen, count-unique_ids a ls (l ∷ seen))

module _ {X : Type 0} where
  index_select-suc :
      (x : X) (xs : List X) (is : List ℕ) → index_select (x ∷ xs) (map suc is) ≡ index_select xs is
  unfolding index_select
  index_select-suc x xs [] = refl
  index_select-suc x xs (i ∷ is) = ground (arith, index_select-suc x xs is)

  -- The rows of an adapter.
  unfoldable pub rows_of : ℕ → List (Option ℕ) → List X → List X
  rows_of a (some l ∷ ls) (x ∷ xs) = let rest = rows_of a ls xs in if l == a then x ∷ rest else rest
  rows_of a (none ∷ ls) (x ∷ xs) = rows_of a ls xs
  rows_of a _ _ = []

  pub index_select-rows_with :
      (a : ℕ) (ls : List (Option ℕ)) (xs : List X)
      → length ls ≡ length xs
      → index_select xs (rows_with a ls) ≡ ok (rows_of a ls xs)
  unfolding index_select rows_with rows_of
  index_select-rows_with a [] xs e = refl
  index_select-rows_with a (l ∷ ls) [] e = absurd (omega arith)
  index_select-rows_with a (none ∷ ls) (x ∷ xs) e =
      index_select-suc x xs (rows_with a ls) ∙ index_select-rows_with a ls xs (omega arith)
  index_select-rows_with a (some l ∷ ls) (x ∷ xs) e =
      ground (
        arith,
        index_select-suc x xs (rows_with a ls),
        index_select-rows_with a ls xs (omega arith),
      )

module _ {Y : Type 0} (add : Y → Y → Y) where
  abbrev pub behind : Y → Result (List Y) → Result (List Y)
  behind y (ok ys) = ok (y ∷ ys)
  behind y (err e) = err e

  pub index_add-suc :
      (y : Y) (ys : List Y) (is : List ℕ) (ds : List Y)
      → index_add add (y ∷ ys) (map suc is) ds ≡ behind y (index_add add ys is ds)
  unfolding index_add
  index_add-suc y ys [] ds = refl
  index_add-suc y ys (i ∷ is) [] = refl
  index_add-suc y ys (i ∷ is) (d ∷ ds) = elim (Option-cases (get_elem? ys i)) [
    | inl e ↦ rw (e, index_add) refl
    | inr (row, e) ↦ rw (e, index_add) (index_add-suc y (set ys i (add row d)) is ds)
  ]

module _ {X Y : Type 0} where
  -- The output row by row, as long as there are rows of all three.
  abbrev pub rowwise : (Option ℕ → X → Y → Y) → List (Option ℕ) → List X → List Y → List Y
  rowwise f [] xs ys = ys
  rowwise f (l ∷ ls) [] ys = ys
  rowwise f (l ∷ ls) (x ∷ xs) [] = []
  rowwise f (l ∷ ls) (x ∷ xs) (y ∷ ys) = f l x y ∷ rowwise f ls xs ys

  pub length-rowwise :
      (f : Option ℕ → X → Y → Y) (ls : List (Option ℕ)) (xs : List X) (ys : List Y)
      → length (rowwise f ls xs ys) ≡ length ys
  length-rowwise f [] xs ys = refl
  length-rowwise f (l ∷ ls) [] ys = refl
  length-rowwise f (l ∷ ls) (x ∷ xs) [] = refl
  length-rowwise f (l ∷ ls) (x ∷ xs) (y ∷ ys) = ap suc (length-rowwise f ls xs ys)

  -- Two passes are one.
  pub rowwise-rowwise :
      (f g : Option ℕ → X → Y → Y) (ls : List (Option ℕ)) (xs : List X) (ys : List Y)
      → rowwise g ls xs (rowwise f ls xs ys) ≡ rowwise (λ l x y. g l x (f l x y)) ls xs ys
  rowwise-rowwise f g [] xs ys = refl
  rowwise-rowwise f g (l ∷ ls) [] ys = refl
  rowwise-rowwise f g (l ∷ ls) (x ∷ xs) [] = refl
  rowwise-rowwise f g (l ∷ ls) (x ∷ xs) (y ∷ ys) =
      ap (λ zs. g l x (f l x y) ∷ zs) (rowwise-rowwise f g ls xs ys)

  pub rowwise-ext :
      (f g : Option ℕ → X → Y → Y) (ls : List (Option ℕ)) (xs : List X) (ys : List Y)
      → ((x : X) (y : Y) → f none x y ≡ g none x y)
      → ((a : ℕ) → users a ls ≡ true → (x : X) (y : Y) → f (some a) x y ≡ g (some a) x y)
      → rowwise f ls xs ys ≡ rowwise g ls xs ys
  rowwise-ext f g [] xs ys bare same = refl
  rowwise-ext f g (l ∷ ls) [] ys bare same = refl
  rowwise-ext f g (l ∷ ls) (x ∷ xs) [] bare same = refl
  rowwise-ext f g (none ∷ ls) (x ∷ xs) (y ∷ ys) bare same =
      cc (bare x y, rowwise-ext f g ls xs ys bare same)
  rowwise-ext f g (some l ∷ ls) (x ∷ xs) (y ∷ ys) bare same =
      cc (
        same l (ground arith) x y,
        rowwise-ext f g ls xs ys bare (λ a h. same a (ground (arith, h))),
      )

  pub rowwise-idle :
      (ls : List (Option ℕ)) (xs : List X) (ys : List Y) → rowwise (λ l x y. y) ls xs ys ≡ ys
  rowwise-idle [] xs ys = refl
  rowwise-idle (l ∷ ls) [] ys = refl
  rowwise-idle (l ∷ ls) (x ∷ xs) [] = refl
  rowwise-idle (l ∷ ls) (x ∷ xs) (y ∷ ys) = ap (λ zs. y ∷ zs) (rowwise-idle ls xs ys)
