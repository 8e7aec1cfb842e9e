-- ===== src/GraphDecoder/Bucket.antt =====
-- The buckets of src/wllm/engine/cuda_graph_decoder.py: which one a batch is padded to, and when
-- there is no scratch sequence to capture with.
use w_llm.Base.{
  ℕ, ◌≤◌, ◌<◌, ◌≡◌, refl, ◌∙◌, ap, subst, ◌⊎◌, inl, inr, true, none, some, List, [], ◌∷◌, leb,
  arith, Bool-cases, All,
}
use w_llm.Base.Outcome.{ok, err, index_error}
use w_llm.Runtime.{Runtime}
use w_llm.Model.{Cache}
use w_llm.GraphDecoder.{GraphDecoder, insert, sort, last_bucket, first_bucket, new_decoder, capture}

insert-All : (P : ℕ → Type 0) (n : ℕ) (ms : List ℕ) → P n → All P ms → All P (insert n ms)
unfolding insert
insert-All P n [] p h = (p, tt)
insert-All P n (m ∷ ms) p (q, h) = elim (Bool-cases (leb n m)) [
  | inl below ↦ rw (below, insert) (p, (q, h))
  | inr above ↦ rw (above, insert) (q, insert-All P n ms p h)
]

sort-All : (P : ℕ → Type 0) (ns : List ℕ) → All P ns → All P (sort ns)
unfolding sort
sort-All P [] h = tt
sort-All P (n ∷ ns) (p, h) = insert-All P n (sort ns) p (sort-All P ns h)

insert-All_back : (P : ℕ → Type 0) (n : ℕ) (ms : List ℕ) → All P (insert n ms) → P n × All P ms
unfolding insert
insert-All_back P n [] (p, h) = (p, tt)
insert-All_back P n (m ∷ ms) h = elim (Bool-cases (leb n m)) [
  | inl below ↦
      let k : All P (n ∷ m ∷ ms) = subst (All P) {y = n ∷ m ∷ ms} (rw below) h in (k.0, k.1)
  | inr above ↦
      let k : All P (m ∷ insert n ms) = subst (All P) {y = m ∷ insert n ms} (rw above) h in
      let (p, rest) = insert-All_back P n ms k.1 in (p, (k.0, rest))
]

sort-All_back : (P : ℕ → Type 0) (ns : List ℕ) → All P (sort ns) → All P ns
unfolding sort
sort-All_back P [] h = tt
sort-All_back P (n ∷ ns) h =
    let (p, rest) = insert-All_back P n (sort ns) h in (p, sort-All_back P ns rest)

-- In ascending order.
abbrev Ascending : List ℕ → Type 0
Ascending [] = Unit
Ascending (n ∷ ns) = All (λ m. n ≤ m) ns × Ascending ns

All-map : {P Q : ℕ → Type 0} → ((n : ℕ) → P n → Q n) → (ns : List ℕ) → All P ns → All Q ns
All-map f [] h = tt
All-map f (n ∷ ns) (p, h) = (f n p, All-map f ns h)

insert-Ascending : (n : ℕ) (ms : List ℕ) → Ascending ms → Ascending (insert n ms)
unfolding insert
insert-Ascending n [] h = (tt, tt)
insert-Ascending n (m ∷ ms) (low, h) = elim (Bool-cases (leb n m)) [
  | inl below ↦
      rw (below, insert) ((ground arith, All-map (λ k le. ground (arith, le)) ms low), (low, h))
  | inr above ↦
      rw (above, insert) (insert-All (λ k. m ≤ k) n ms (ground arith) low, insert-Ascending n ms h)
]

sort-Ascending : (ns : List ℕ) → Ascending (sort ns)
unfolding sort
sort-Ascending [] = tt
sort-Ascending (n ∷ ns) = insert-Ascending n (sort ns) (sort-Ascending ns)

some_inj : {A : Type 0} {x y : A} → some x ≡ some y → x ≡ y
some_inj e = cc

last_bucket-All :
    (P : ℕ → Type 0) (ns : List ℕ) (top : ℕ) → All P ns → last_bucket ns ≡ some top → P top
unfolding last_bucket
last_bucket-All P [] top h e = absurd (none_given e)
  where
    none_given : ¬ (none ≡ some top)
    none_given i = cc
last_bucket-All P (n ∷ []) top (p, h) e = subst P (some_inj e) p
last_bucket-All P (n ∷ m ∷ ns) top (p, h) e = last_bucket-All P (m ∷ ns) top h e

-- The first bucket that fits, in an ascending list, is the least that does.
first_bucket-least :
    (ns : List ℕ) (n top : ℕ)
    → Ascending ns
    → last_bucket ns ≡ some top
    → n ≤ top
    → (b : ℕ) × (first_bucket ns n ≡ some b) × (n ≤ b) × (b ≤ top) × All (λ c. (c < n) ⊎ (b ≤ c)) ns
unfolding first_bucket last_bucket
first_bucket-least [] n top h e p = cc
first_bucket-least (a ∷ []) n top h e p =
    let same : a ≡ top = some_inj e in
    (a, ground arith, omega (arith, same, p), omega (arith, same), (inr (omega arith), tt))
first_bucket-least (a ∷ c ∷ ns) n top (low, h) e p = elim (Bool-cases (leb n a)) [
  | inl fits ↦ (
    a,
    rw fits,
    ground arith,
    last_bucket-All (λ m. a ≤ m) (c ∷ ns) top low e,
    (inr (omega arith), All-map (λ m le. inr le) (c ∷ ns) low),
  )
  | inr small ↦
      let (b, found, fits, inside, least) = first_bucket-least (c ∷ ns) n top h e p in
      (b, rw small found, fits, inside, (inl (ground arith), least))
]

-- The fields of a decoder that was made.
new_decoder_fields :
    (sizes : List ℕ) (max_blocks : ℕ) (d : GraphDecoder)
    → new_decoder true sizes max_blocks ≡ ok d
    → (last_bucket (sort sizes) ≡ some d.max_bucket) × (d.bucket_sizes ≡ sort sizes)
unfolding new_decoder
new_decoder_fields sizes max_blocks d e = ground (arith, e)

-- A batch no larger than the largest bucket is padded to the least bucket that holds it: one that was
-- asked for, no smaller than the batch, and no larger than any other that would hold it.
pub first_bucket-new_decoder :
    (sizes : List ℕ) (max_blocks n : ℕ) (d : GraphDecoder)
    → new_decoder true sizes max_blocks ≡ ok d
    → n ≤ d.max_bucket
    → (b : ℕ) × (first_bucket d.bucket_sizes n ≡ some b)
      × (n ≤ b)
      × (b ≤ d.max_bucket)
      × All (λ c. (c < n) ⊎ (b ≤ c)) sizes
first_bucket-new_decoder sizes max_blocks n d e p =
    let (at, sorted) = new_decoder_fields sizes max_blocks d e in
    let (b, found, fits, inside, least) =
      first_bucket-least (sort sizes) n d.max_bucket (sort-Ascending sizes) at p in
    (
      b,
      ap (λ ns. first_bucket ns n) sorted ∙ found,
      fits,
      inside,
      sort-All_back (λ c. (c < n) ⊎ (b ≤ c)) sizes least,
    )

ok_inj : {c d : GraphDecoder} → ok c ≡ ok d → c ≡ d
ok_inj e = cc

module _ (rt : Runtime) where
  -- A decoder whose only bucket is 1 has no scratch sequence, so that capturing it raises.
  pub capture-single :
      (max_blocks : ℕ) (d : GraphDecoder) (m : Cache rt)
      → new_decoder true (1 ∷ []) max_blocks ≡ ok d
      → (capture rt (d, m)).0 ≡ err index_error
  unfolding new_decoder sort last_bucket capture
  capture-single max_blocks d m e =
      subst (λ x. (capture rt (x, m)).0 ≡ err index_error) (ok_inj e) refl
