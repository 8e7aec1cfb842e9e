-- ===== src/Sampling/Penalty.antt =====
-- The repetition penalty of src/wllm/engine/sampling.py, token by token.
use w_llm.Base.{
  ℕ, zero, suc, ◌<◌, ◌≡◌, refl, sym, ap, ◌∙◌, inl, inr, true, false, ◌||◌, none, some, List, [],
  ◌∷◌, map, length, get_elem?, get_elem?-some, lt_of_get_elem?, elem, ◌==◌, if◌then◌else◌, arith,
  All, Bool-cases,
}
use w_llm.Base.Outcome.{ok}
use w_llm.Sampling.{Sampler, insert_once, sorted_set, gather, scatter, penalised, penalise_row}
use w_llm.Sampling.Filter.{
  Once, get_elem?-scatter, get_elem?-scatter_other, get_elem?-map, some-inj,
}

elem-insert_once : (a n : ℕ) (ms : List ℕ) → elem a (insert_once n ms) ≡ ((n == a) || elem a ms)
elem-insert_once a n [] = refl
elem-insert_once a n (m ∷ ms) = ground (arith, elem-insert_once a n ms)

elem-sorted_set : (a : ℕ) (ns : List ℕ) → elem a (sorted_set ns) ≡ elem a ns
unfolding sorted_set
elem-sorted_set a [] = refl
elem-sorted_set a (n ∷ ns) = elem-insert_once a n (sorted_set ns) ∙ rw (elem-sorted_set a ns) refl

-- Sorted, without repetition.
abbrev IsRising : List ℕ → Type 0
IsRising [] = Unit
IsRising (m ∷ ms) = All (λ n. m < n) ms × IsRising ms

All-insert_once :
    (b n : ℕ) (ms : List ℕ) → b < n → All (λ k. b < k) ms → All (λ k. b < k) (insert_once n ms)
All-insert_once b n [] lt h = (lt, tt)
All-insert_once b n (m ∷ ms) lt h = ground (arith, All-insert_once b n ms lt h.1)

All-below : (b c : ℕ) (ms : List ℕ) → b < c → All (λ k. c < k) ms → All (λ k. b < k) ms
All-below b c [] lt h = tt
All-below b c (m ∷ ms) lt h = (omega (arith, h.0), All-below b c ms lt h.1)

insert_once-IsRising : (n : ℕ) (ms : List ℕ) → IsRising ms → IsRising (insert_once n ms)
insert_once-IsRising n [] h = (tt, tt)
insert_once-IsRising n (m ∷ ms) h =
    ground (arith, insert_once-IsRising n ms h.1, All-insert_once m n ms, All-below n m ms)

sorted_set-IsRising : (ns : List ℕ) → IsRising (sorted_set ns)
unfolding sorted_set
sorted_set-IsRising [] = tt
sorted_set-IsRising (n ∷ ns) = insert_once-IsRising n (sorted_set ns) (sorted_set-IsRising ns)

absent : (b : ℕ) (ms : List ℕ) → All (λ k. b < k) ms → elem b ms ≡ false
absent b [] h = refl
absent b (m ∷ ms) h = ground (arith, absent b ms h.1, h.0)

IsRising-Once : (ms : List ℕ) → IsRising ms → Once ms
IsRising-Once [] h = tt
IsRising-Once (m ∷ ms) h = (absent m ms h.0, IsRising-Once ms h.1)

-- Where an element stands.
place_of : (a : ℕ) (ms : List ℕ) → elem a ms ≡ true → (r : ℕ) × (get_elem? ms r ≡ some a)
place_of a [] h = cc
place_of a (m ∷ ms) h = elim (Bool-cases (m == a)) [
  | inl same ↦ (0, ground arith)
  | inr other ↦ let (r, at) = place_of a ms (ground arith) in (suc r, at)
]

module _ {A : Type 0} where
  abbrev Gathered : List A → List ℕ → List A → Type 0
  Gathered row idx values =
      (r i : ℕ) (a : A)
      → get_elem? idx r ≡ some i
      → get_elem? row i ≡ some a
      → get_elem? values r ≡ some a

  Gathered-behind :
      (row : List A) (i : ℕ) (idx : List ℕ) (a : A) (values : List A)
      → get_elem? row i ≡ some a
      → Gathered row idx values
      → Gathered row (i ∷ idx) (a ∷ values)
  Gathered-behind row i idx a values at each zero j b e g =
      sym at ∙ ap (get_elem? row) (some-inj e) ∙ g
  Gathered-behind row i idx a values at each (suc r) j b e g = each r j b e g

  -- The row is long enough for every place.
  gather_total :
      (row : List A) (idx : List ℕ)
      → All (λ i. i < length row) idx
      → (values : List A) × (gather row idx ≡ ok values) × Gathered row idx values
  unfolding gather
  gather_total row [] h = ([], refl, λ r i a e g. absurd (nothing e))
    where
      nothing : {B : Type 0} {b : B} → ¬ (none ≡ some b)
      nothing = cc
  gather_total row (i ∷ idx) h =
      let (a, at) = get_elem?-some row i h.0 in
      let (values, given, each) = gather_total row idx h.1 in
      (a ∷ values, rw (at, gather) (rw given refl), Gathered-behind row i idx a values at each)

All-of_elem : (n : ℕ) (ms : List ℕ) → ((a : ℕ) → elem a ms ≡ true → a < n) → All (λ i. i < n) ms
All-of_elem n [] h = tt
All-of_elem n (m ∷ ms) h = (h m (ground arith), All-of_elem n ms (λ a e. h a (ground (arith, e))))

elem-below : (n a : ℕ) (ms : List ℕ) → All (λ i. i < n) ms → elem a ms ≡ true → a < n
elem-below n a [] h e = cc
elem-below n a (m ∷ ms) h e = ground (arith, elem-below n a ms h.1)

module _ {F R : Type 0} (s : Sampler F R) where
  open s use {one_f, eq_f}

  -- With a penalty other than 1 and generated tokens that the row has, the call returns; the row keeps
  -- the logit of each token that was not generated, and the logit of each that was is penalised, once
  -- however often it was generated.
  pub penalise_row-penalised :
      (ids : List ℕ) (penalty : F) (row : List F)
      → All (λ i. i < length row) ids
      → eq_f penalty one_f ≡ false
      → (out : List F) × (penalise_row s ids penalty row ≡ ok out)
        × ((t : ℕ) (x : F)
            → get_elem? row t ≡ some x
            → get_elem? out t ≡ some (if elem t ids then penalised s penalty x else x))
  unfolding penalise_row
  penalise_row-penalised [] penalty row h other = (row, refl, λ t x e. e)
  penalise_row-penalised (id ∷ ids) penalty row h other =
      let idx = sorted_set (id ∷ ids) in
      let once = IsRising-Once idx (sorted_set-IsRising (id ∷ ids)) in
      let inside =
        All-of_elem (length row) idx (λ a e.
          elem-below (length row) a (id ∷ ids) h (sym (elem-sorted_set a (id ∷ ids)) ∙ e)) in
      let (values, given, each) = gather_total row idx inside in
      (
        scatter row idx (map (penalised s penalty) values),
        rw (other, penalise_row) (rw given refl),
        λ t x e. elim (Bool-cases (elem t idx)) [
          | inl used ↦
              let (r, at) = place_of t idx used in
              get_elem?-scatter row idx (map (penalised s penalty) values) r t
                (penalised s penalty x) once at
                (get_elem?-map (penalised s penalty) values r (each r t x at e))
                (lt_of_get_elem? row t e)
              ∙ rw (sym (elem-sorted_set t (id ∷ ids)) ∙ used) refl
          | inr unused ↦
              get_elem?-scatter_other row idx (map (penalised s penalty) values) t unused
              ∙ e
              ∙ rw (sym (elem-sorted_set t (id ∷ ids)) ∙ unused) refl
        ],
      )
