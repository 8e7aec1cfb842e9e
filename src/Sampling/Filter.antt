-- ===== src/Sampling/Filter.antt =====
-- The filters of src/wllm/engine/sampling.py, token by token.
use w_llm.Base.{
  ℕ, zero, suc, ◌+◌, ◌≤◌, ◌<◌, ◌≡◌, ◌⊎◌, refl, sym, ap, ◌∙◌, Bool, true, false, some, List, [], ◌∷◌,
  map, length, length-replicate, length-set, subst, get_elem?, get_or, set, replicate, elem, ◌==◌,
  if◌then◌else◌, arith,
}
use w_llm.Sampling.{Sampler, scatter, mask_row, keeps, keep_flags, values_of, places_of, filter_row}

pub some-inj : {A : Type 0} {a b : A} → some a ≡ some b → a ≡ b
some-inj e = cc

-- No place stands twice.
abbrev pub Once : List ℕ → Type 0
Once [] = Unit
Once (i ∷ idx) = (elem i idx ≡ false) × Once idx

module _ {A : Type 0} where
  -- Another place.
  get_elem?-set_other :
      (xs : List A) (i j : ℕ) (a : A) → (i == j) ≡ false → get_elem? (set xs i a) j ≡ get_elem? xs j
  get_elem?-set_other [] i j a h = refl
  get_elem?-set_other (x ∷ xs) zero zero a h = cc
  get_elem?-set_other (x ∷ xs) zero (suc j) a h = refl
  get_elem?-set_other (x ∷ xs) (suc i) zero a h = refl
  get_elem?-set_other (x ∷ xs) (suc i) (suc j) a h =
      get_elem?-set_other xs i j a (ground (arith, h))

  pub get_elem?-set_self :
      (xs : List A) (i : ℕ) (a : A) → i < length xs → get_elem? (set xs i a) i ≡ some a
  get_elem?-set_self [] i a h = absurd (omega arith)
  get_elem?-set_self (x ∷ xs) zero a h = refl
  get_elem?-set_self (x ∷ xs) (suc i) a h = get_elem?-set_self xs i a (omega arith)

  -- A place that is not among those written.
  pub get_elem?-scatter_other :
      (row : List A) (idx : List ℕ) (values : List A) (t : ℕ)
      → elem t idx ≡ false
      → get_elem? (scatter row idx values) t ≡ get_elem? row t
  unfolding scatter
  get_elem?-scatter_other row [] values t h = refl
  get_elem?-scatter_other row (i ∷ idx) [] t h = refl
  get_elem?-scatter_other row (i ∷ idx) (a ∷ values) t h =
      get_elem?-scatter_other (set row i a) idx values t (ground (arith, h))
      ∙ get_elem?-set_other row i t a (ground (arith, h))

  -- The place at a rank takes the value of that rank, where no place is written twice.
  pub get_elem?-scatter :
      (row : List A) (idx : List ℕ) (values : List A) (r t : ℕ) (a : A)
      → Once idx
      → get_elem? idx r ≡ some t
      → get_elem? values r ≡ some a
      → t < length row
      → get_elem? (scatter row idx values) t ≡ some a
  unfolding scatter
  get_elem?-scatter row [] values r t a once at v inside = cc
  get_elem?-scatter row (i ∷ idx) [] r t a once at v inside = cc
  get_elem?-scatter row (i ∷ idx) (b ∷ values) zero t a once at v inside =
      let e : i ≡ t = some-inj at in
      get_elem?-scatter_other (set row i b) idx values t (subst (λ j. elem j idx ≡ false) e once.0)
      ∙ subst (λ j. get_elem? (set row i b) j ≡ some a) e
          (get_elem?-set_self row i b (subst (λ j. j < length row) (sym e) inside) ∙ v)
  get_elem?-scatter row (i ∷ idx) (b ∷ values) (suc r) t a once at v inside =
      get_elem?-scatter (set row i b) idx values r t a once.1 at v
        (omega (arith, length-set row i b))

pub get_elem?-map :
    {A B : Type 0} (f : A → B) (xs : List A) (i : ℕ) {a : A}
    → get_elem? xs i ≡ some a
    → get_elem? (map f xs) i ≡ some (f a)
get_elem?-map f [] i h = cc
get_elem?-map f (x ∷ xs) zero h = ap (λ y. some (f y)) (some-inj h)
get_elem?-map f (x ∷ xs) (suc i) h = get_elem?-map f xs i h

module _ {F R : Type 0} (s : Sampler F R) where
  open s use {zero_f, one_f, neg_inf, lt_f, mul_f, softmax, cumsum, sort_descending}

  get_elem?-mask_row :
      (mask : List Bool) (row : List F) (i : ℕ) (allowed : Bool) (v : F)
      → get_elem? mask i ≡ some allowed
      → get_elem? row i ≡ some v
      → get_elem? (mask_row s mask row) i ≡ some (if allowed then v else neg_inf)
  get_elem?-mask_row [] row i allowed v h g = cc
  get_elem?-mask_row (b ∷ mask) [] i allowed v h g = cc
  get_elem?-mask_row (b ∷ mask) (x ∷ row) zero allowed v h g = cc (some-inj h, some-inj g)
  get_elem?-mask_row (b ∷ mask) (x ∷ row) (suc i) allowed v h g =
      get_elem?-mask_row mask row i allowed v h g

  get_elem?-keep_flags :
      (k : ℕ) (p m top : F) (from r : ℕ) (probs cums : List F) (prob cum : F)
      → get_elem? probs r ≡ some prob
      → get_elem? cums r ≡ some cum
      → get_elem? (keep_flags s k p m top from probs cums) r
        ≡ some (keeps s k p m top (from + r) prob cum)
  unfolding keep_flags
  get_elem?-keep_flags k p m top from r [] cums prob cum h g = cc
  get_elem?-keep_flags k p m top from r (q ∷ probs) [] prob cum h g = cc
  get_elem?-keep_flags k p m top from zero (q ∷ probs) (c ∷ cums) prob cum h g =
      let e : from ≡ from + 0 = omega arith in
      ap (λ n. some (keeps s k p m top n q c)) e
      ∙ ap (λ x. some (keeps s k p m top (from + 0) x c)) (some-inj h)
      ∙ ap (λ x. some (keeps s k p m top (from + 0) prob x)) (some-inj g)
  get_elem?-keep_flags k p m top from (suc r) (q ∷ probs) (c ∷ cums) prob cum h g =
      let e : suc from + r ≡ from + suc r = omega arith in
      get_elem?-keep_flags k p m top (suc from) r probs cums prob cum h g
      ∙ ap (λ n. some (keeps s k p m top n prob cum)) e

  -- Token t of a row, of logit v, comes at rank r of the sort, which takes no place twice, with its
  -- probability and the running sum there.
  pub record Ranked (row : List F) (r t : ℕ) (v prob cum : F) : Type 0 where
    pub once : Once (places_of s (sort_descending row))
    pub at : get_elem? (sort_descending row) r ≡ some (v, t)
    pub inside : t < length row
    pub prob_at : get_elem? (softmax (values_of s (sort_descending row))) r ≡ some prob
    pub cum_at : get_elem? (cumsum (softmax (values_of s (sort_descending row)))) r ≡ some cum

  abbrev pub top_prob : List F → F
  top_prob row = get_or (softmax (values_of s (sort_descending row))) 0 zero_f

  filter_row-keeps :
      (row : List F) (k : ℕ) (p m : F) (r t : ℕ) (v prob cum : F)
      → Ranked row r t v prob cum
      → get_elem? (filter_row s row k p m) t
        ≡ some (if keeps s k p m (top_prob row) r prob cum then v else neg_inf)
  unfolding filter_row
  filter_row-keeps row k p m r t v prob cum ranked =
      let sorted = sort_descending row in
      let probs = softmax (values_of s sorted) in
      let e : 0 + r ≡ r = omega arith in
      get_elem?-scatter (replicate (length row) neg_inf) (places_of s sorted) _ r t _ ranked.once
        (get_elem?-map (λ (q : F × ℕ). q.1) sorted r ranked.at)
        (get_elem?-mask_row (keep_flags s k p m (top_prob row) 0 probs (cumsum probs))
          (values_of s sorted) r _ v
          (get_elem?-keep_flags k p m (top_prob row) 0 r probs (cumsum probs) prob cum
            ranked.prob_at ranked.cum_at)
          (get_elem?-map (λ (q : F × ℕ). q.0) sorted r ranked.at))
        (omega (arith, length-replicate (length row) neg_inf, ranked.inside))
      ∙ ap (λ n. some (if keeps s k p m (top_prob row) n prob cum then v else neg_inf)) e

  -- The filters of one row, for a token of it and its rank in a sort that takes no place twice: the token
  -- of the first rank always keeps its logit; with top_k, a token of a rank beyond it is excluded; with
  -- top_p, one behind the first whose running sum exceeds it; with min_p, one behind the first whose
  -- probability is below its share of the largest; and a token that none of the filters excludes keeps its
  -- logit.
  pub filter_row-Ranked :
      (row : List F) (k : ℕ) (p m : F) (r t : ℕ) (v prob cum : F)
      → Ranked row r t v prob cum
      → let out = get_elem? (filter_row s row k p m) t in
        (r ≡ 0 → out ≡ some v)
        × (0 < k → k ≤ r → out ≡ some neg_inf)
        × (lt_f p one_f ≡ true → 0 < r → lt_f p cum ≡ true → out ≡ some neg_inf)
        × (lt_f zero_f m ≡ true
            → 0 < r
            → lt_f prob (mul_f m (top_prob row)) ≡ true
            → out ≡ some neg_inf)
        × ((k ≡ 0) ⊎ (r < k)
            → (lt_f p one_f ≡ false) ⊎ (lt_f p cum ≡ false)
            → (lt_f zero_f m ≡ false) ⊎ (lt_f prob (mul_f m (top_prob row)) ≡ false)
            → out ≡ some v)
  filter_row-Ranked row k p m r t v prob cum ranked =
      let e = filter_row-keeps row k p m r t v prob cum ranked in
      (
        λ h. e ∙ ground (arith, h),
        λ h g. e ∙ ground (arith, h, g),
        λ h g i. e ∙ ground (arith, h, g, i),
        λ h g i. e ∙ ground (arith, h, g, i),
        λ h g i. e ∙ ground (arith, h, g, i),
      )
