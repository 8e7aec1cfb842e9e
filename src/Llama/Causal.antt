-- ===== src/Llama/Causal.antt =====
-- Causal attention in src/wllm/models/llama.py, token by token: what a row depends on, whether the tokens
-- before it come from the cache or from the same pass.
use w_llm.Base.{
  ℕ, zero, suc, ◌+◌, ◌-◌, ◌≡◌, refl, ◌∙◌, sym, ap, inl, inr, Bool, true, false, Bool-cases, List,
  [], ◌∷◌, ◌++◌, length, take, take-length-append, subst, length-append, replicate, leb, arith,
}
use mathlib.Core.List.{append_assoc, append-nil}
use w_llm.Base.Table.{zip_with}
use w_llm.Llama.{Torch, tril_row, prefix_mask}

-- The entries that a row of a mask keeps.
abbrev pub select : {X : Type 0} → List Bool → List X → List X
select [] xs = []
select (m ∷ ms) [] = []
select (true ∷ ms) (x ∷ xs) = x ∷ select ms xs
select (false ∷ ms) (x ∷ xs) = select ms xs

-- Row by row, by what it keeps.
abbrev pub masked_rows :
    {P A : Type 0} → (P → List (P × P) → A) → List (List Bool) → List P → List (P × P) → List A
masked_rows attend [] qs kvs = []
masked_rows attend (m ∷ ms) [] kvs = []
masked_rows attend (m ∷ ms) (q ∷ qs) kvs = attend q (select m kvs) ∷ masked_rows attend ms qs kvs

-- What PyTorch documents of scaled_dot_product_attention: each row attends to the keys and values that its
-- mask keeps, and is_causal stands for the mask of a lower triangle. A cast to float32 and back gives the
-- row back.
pub record TorchLaws {P A S : Type 0} (tc : Torch P A S) : Type 0 where
  pub attend : P → List (P × P) → A
  pub sdpa-masked :
      (mask : List (List Bool)) (qs ks vs : List P)
      → tc.sdpa mask qs ks vs ≡ masked_rows attend mask qs (zip_with (λ k v. (k, v)) ks vs)
  pub sdpa-causal :
      (qs ks vs : List P)
      → tc.sdpa_causal qs ks vs ≡ tc.sdpa (prefix_mask 0 (length ks) 0 (length qs)) qs ks vs
  pub of_float-to_float : (p : P) → tc.of_float (tc.to_float p) ≡ p

-- Each row attends to what is past and to the new tokens up to its own.
abbrev pub causal_rows :
    {P A : Type 0} → (P → List (P × P) → A) → List (P × P) → List P → List (P × P) → List A
causal_rows attend past [] kvs = []
causal_rows attend past (q ∷ qs) [] = []
causal_rows attend past (q ∷ qs) (kv ∷ kvs) =
    attend q (past ++ kv ∷ []) ∷ causal_rows attend (past ++ kv ∷ []) qs kvs

take_nil : {X : Type 0} (n : ℕ) → take {A = X} n [] ≡ []
take_nil zero = refl
take_nil (suc n) = refl

select-tril_row :
    {X : Type 0} (i j : ℕ) (xs : List X)
    → select (tril_row i j (length xs)) xs ≡ take (i + 1 - j) xs
unfolding tril_row
select-tril_row i j [] = sym (take_nil (i + 1 - j))
select-tril_row i j (x ∷ xs) = elim (Bool-cases (leb j i)) [
  | inl kept ↦
      let one_more : i + 1 - j ≡ suc (i + 1 - (j + 1)) = ground (arith, kept) in
      rw (kept, one_more) (ap (λ ys. x ∷ ys) (select-tril_row i (j + 1) xs))
  | inr out ↦
      let none_left : i + 1 - j ≡ 0 = ground (arith, out) in
      let none_after : i + 1 - (j + 1) ≡ 0 = ground (arith, out) in
      rw (out, none_left) (select-tril_row i (j + 1) xs ∙ ap (λ n. take n xs) none_after)
]

pub cons : {X : Type 0} {x y : X} {xs ys : List X} → x ≡ y → xs ≡ ys → x ∷ xs ≡ y ∷ ys
cons e f = cc

select-prefix :
    {X : Type 0} (past xs : List X) (ms : List Bool)
    → select (replicate (length past) true ++ ms) (past ++ xs) ≡ past ++ select ms xs
select-prefix [] xs ms = refl
select-prefix (x ∷ past) xs ms = ap (λ ys. x ∷ ys) (select-prefix past xs ms)

-- The mask of a prefix and new tokens is the causal one.
pub masked_rows-prefix_mask :
    {P A : Type 0} (attend : P → List (P × P) → A) (past done : List (P × P)) (qs : List P)
    (kvs : List (P × P))
    → length kvs ≡ length qs
    → masked_rows attend
        (prefix_mask (length past) (length (done ++ kvs)) (length done) (length qs))
        qs
        (past ++ (done ++ kvs))
      ≡ causal_rows attend (past ++ done) qs kvs
unfolding prefix_mask
masked_rows-prefix_mask attend past done [] kvs h = refl
masked_rows-prefix_mask attend past done (q ∷ qs) [] h = absurd (omega (arith, h))
masked_rows-prefix_mask attend past done (q ∷ qs) (kv ∷ kvs) h =
    let all : (done ++ kv ∷ []) ++ kvs ≡ done ++ kv ∷ kvs = append_assoc done (kv ∷ []) kvs in
    let size : length (done ++ kv ∷ []) ≡ length done + 1 = length-append done (kv ∷ []) in
    let kept : select (tril_row (length done) 0 (length (done ++ kv ∷ kvs))) (done ++ kv ∷ kvs)
        ≡ done ++ kv ∷ [] =
      select-tril_row (length done) 0 (done ++ kv ∷ kvs)
      ∙ ap (λ n. take n (done ++ kv ∷ kvs)) (omega (arith, size))
      ∙ ap (take (length (done ++ kv ∷ []))) (sym all)
      ∙ take-length-append (done ++ kv ∷ []) kvs in
    let further : past ++ (done ++ kv ∷ []) ≡ (past ++ done) ++ kv ∷ [] =
      sym (append_assoc past done (kv ∷ [])) in
    let rest =
      masked_rows-prefix_mask attend past (done ++ kv ∷ []) qs kvs (omega (arith, h))
      ∙ ap (λ ys. causal_rows attend ys qs kvs) further in
    let row =
      select-prefix past (done ++ kv ∷ kvs)
        (tril_row (length done) 0 (length (done ++ kv ∷ kvs))) in
    cons (ap (attend q) (row ∙ ap (λ x. past ++ x) kept ∙ further)) (
      subst
        (λ n.
          masked_rows attend (prefix_mask (length past) (length (done ++ kv ∷ kvs)) n (length qs))
            qs (past ++ (done ++ kv ∷ kvs))
          ≡ causal_rows attend ((past ++ done) ++ kv ∷ []) qs kvs)
        size
        (subst
          (λ xs.
            masked_rows attend
              (prefix_mask (length past) (length xs) (length (done ++ kv ∷ [])) (length qs)) qs
              (past ++ xs)
            ≡ causal_rows attend ((past ++ done) ++ kv ∷ []) qs kvs)
          all rest))

-- A row depends on what stands before it: the rows of a list are those of its first part, and then those
-- of the rest after it.
pub causal_rows-append :
    {P A : Type 0} (attend : P → List (P × P) → A) (past : List (P × P)) (qs qs' : List P)
    (kvs kvs' : List (P × P))
    → length kvs ≡ length qs
    → causal_rows attend past (qs ++ qs') (kvs ++ kvs')
      ≡ causal_rows attend past qs kvs ++ causal_rows attend (past ++ kvs) qs' kvs'
causal_rows-append attend past [] qs' [] kvs' h =
    ap (λ x. causal_rows attend x qs' kvs') (sym (append-nil past))
causal_rows-append attend past [] qs' (kv ∷ kvs) kvs' h = absurd (omega (arith, h))
causal_rows-append attend past (q ∷ qs) qs' [] kvs' h = absurd (omega (arith, h))
causal_rows-append attend past (q ∷ qs) qs' (kv ∷ kvs) kvs' h =
    ap (λ ys. attend q (past ++ kv ∷ []) ∷ ys)
      (causal_rows-append attend (past ++ kv ∷ []) qs qs' kvs kvs' (omega (arith, h))
        ∙ ap (λ x. causal_rows attend (past ++ kv ∷ []) qs kvs ++ causal_rows attend x qs' kvs')
            (append_assoc past (kv ∷ []) kvs))
