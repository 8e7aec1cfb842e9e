-- ===== src/BeamSearch/Settle.antt =====
-- The end of a step of a beam group in src/wllm/engine/beam_search.py: its beams stay in step, and it
-- ends in time.
use w_llm.Base.{
  ℕ, zero, suc, ◌+◌, ◌-◌, ◌≤◌, ◌<◌, ◌≡◌, refl, ap, subst, ◌⊎◌, inl, inr, Bool, true, false, none,
  some, List, [], ◌∷◌, ◌++◌, length, length-append, length-drop, drop, get_elem?, get_elem?-some,
  leb, ltb, arith, Bool-cases, All,
}
use w_llm.Base.Outcome.{ok}
use w_llm.Runtime.{Runtime, Floats}
use w_llm.BeamSearch.{
  Beam, BeamGroup, Candidate, is_stop, best, score, insert_candidate, sort_candidates, finalize,
  finalize_pool, FinishReason, stop, length_limit, select, reached_max_len, settle, conclude,
  is_over, prompt_len,
}

All-snoc :
    {A : Type 0} (P : A → Type 0) (xs : List A) (x : A) → All P xs → P x → All P (xs ++ x ∷ [])
All-snoc P [] x h p = (p, tt)
All-snoc P (y ∷ ys) x (q, h) p = (q, All-snoc P ys x h p)

All-at :
    {A : Type 0} (P : A → Type 0) (xs : List A) (i : ℕ) (x : A)
    → All P xs
    → get_elem? xs i ≡ some x
    → P x
All-at P [] i x h e = absurd (absent e)
  where
    absent : {B : Type 0} {y : B} → ¬ (none ≡ some y)
    absent e = cc
All-at P (y ∷ ys) zero x (q, h) e = subst P (same e) q
  where
    same : some y ≡ some x → y ≡ x
    same i = cc
All-at P (y ∷ ys) (suc i) x (q, h) e = All-at P ys i x h e

All-map :
    {A : Type 0} {P Q : A → Type 0} → ((x : A) → P x → Q x) → (xs : List A) → All P xs → All Q xs
All-map f [] h = tt
All-map f (x ∷ xs) (p, h) = (f x p, All-map f xs h)

module _ {F : Type 0} where
  -- A beam of exactly, and of at most, so many tokens.
  abbrev pub HasLen : ℕ → Beam F → Type 0
  HasLen n b = length b.token_ids ≡ n

  abbrev pub Within : ℕ → Beam F → Type 0
  Within n b = length b.token_ids ≤ n

  abbrev pub HasParent : BeamGroup F → Candidate F → Type 0
  HasParent g c = c.parent < length g.beams

  -- With room for a beam, a candidate gives a child that goes on or stops.
  abbrev first_child : List (Candidate F) → Bool → ℕ
  first_child (c ∷ cs) true = 1
  first_child cs room = 0

  -- What the loop over the candidates leaves.
  record Selected (g : BeamGroup F) (n : ℕ) (cs : List (Candidate F))
      (beams finished beams' finished' : List (Beam F)) : Type 0 where
    same_len : All (HasLen n) beams'
    ended : All (Within n) finished'
    few : length beams' ≤ g.num_beams
    some_child :
        length beams + length finished + first_child cs (ltb (length beams) g.num_beams)
        ≤ length beams' + length finished'

  child-HasLen :
      (n t : ℕ) (s : F) (p : Beam F)
      → HasLen n p
      → HasLen (n + 1) (record { token_ids = p.token_ids ++ t ∷ []; cum_logprob = s })
  child-HasLen n t s p h = omega (arith, length-append p.token_ids (t ∷ []), h)

  select-Selected :
      (g : BeamGroup F) (n : ℕ) (cs : List (Candidate F)) (beams finished : List (Beam F))
      → All (HasParent g) cs
      → All (HasLen n) g.beams
      → All (HasLen (n + 1)) beams
      → All (Within (n + 1)) finished
      → length beams ≤ g.num_beams
      → (beams' : List (Beam F)) × (finished' : List (Beam F)) × (select g cs beams finished
          ≡ ok (beams', finished'))
        × Selected g (n + 1) cs beams finished beams' finished'
  unfolding select
  select-Selected g n [] beams finished parents old same ended few = (
    beams,
    finished,
    refl,
    record { same_len = same; ended = ended; few = few; some_child = ground arith },
  )
  select-Selected g n (c ∷ cs) beams finished (parent, parents) old same ended few =
      elim (Bool-cases (leb g.num_beams (length beams))) [
        | inl full ↦ (
          beams,
          finished,
          rw (full, select),
          record { same_len = same; ended = ended; few = few; some_child = ground arith },
        )
        | inr room ↦
            let (p, at) = get_elem?-some g.beams c.parent parent in
            let child : Beam F = record {
              token_ids = p.token_ids ++ c.token ∷ [];
              cum_logprob = c.score;
            } in
            let long =
              child-HasLen n c.token c.score p (All-at (HasLen n) g.beams c.parent p old at) in
            elim (Bool-cases (is_stop g c.token)) [
              | inl stops ↦
                  let (b', f', run, sel) =
                    select-Selected g n cs beams (finished ++ child ∷ []) parents old same
                      (All-snoc (Within (n + 1)) finished child ended (omega (arith, long))) few in
                  (
                    b',
                    f',
                    rw (room, select) (rw at (rw stops run)),
                    record {
                      same_len = sel.same_len;
                      ended = sel.ended;
                      few = sel.few;
                      some_child =
                          ground (arith, sel.some_child, length-append finished (child ∷ []));
                    },
                  )
              | inr goes ↦
                  let (b', f', run, sel) =
                    select-Selected g n cs (beams ++ child ∷ []) finished parents old
                      (All-snoc (HasLen (n + 1)) beams child same long) ended
                      (ground (arith, length-append beams (child ∷ []))) in
                  (
                    b',
                    f',
                    rw (room, select) (rw at (rw goes run)),
                    record {
                      same_len = sel.same_len;
                      ended = sel.ended;
                      few = sel.few;
                      some_child = ground (arith, sel.some_child, length-append beams (child ∷ []));
                    },
                  )
            ]
      ]

List-cases : {A : Type 0} (xs : List A) → (xs ≡ []) ⊎ ((x : A) × (ys : List A) × (xs ≡ x ∷ ys))
List-cases [] = inl refl
List-cases (x ∷ xs) = inr (x, xs, refl)

module _ {F : Type 0} (fl : Floats F) where
  insert_candidate-All :
      (P : Candidate F → Type 0) (c : Candidate F) (ds : List (Candidate F))
      → P c
      → All P ds
      → All P (insert_candidate fl c ds)
  unfolding insert_candidate
  insert_candidate-All P c [] p h = (p, tt)
  insert_candidate-All P c (d ∷ ds) p (q, h) = elim (Bool-cases (fl.lt_f d.score c.score)) [
    | inl above ↦ rw (above, insert_candidate) (p, (q, h))
    | inr below ↦ rw (below, insert_candidate) (q, insert_candidate-All P c ds p h)
  ]

  length-insert_candidate :
      (c : Candidate F) (ds : List (Candidate F))
      → length (insert_candidate fl c ds) ≡ suc (length ds)
  unfolding insert_candidate
  length-insert_candidate c [] = refl
  length-insert_candidate c (d ∷ ds) = ground (arith, length-insert_candidate c ds)

  sort_candidates-All :
      (P : Candidate F → Type 0) (sorted cs : List (Candidate F))
      → All P sorted
      → All P cs
      → All P (sort_candidates fl sorted cs)
  unfolding sort_candidates
  sort_candidates-All P sorted [] h k = h
  sort_candidates-All P sorted (c ∷ cs) h (p, k) =
      sort_candidates-All P (insert_candidate fl c sorted) cs (insert_candidate-All P c sorted p h)
        k

  length-sort_candidates :
      (sorted cs : List (Candidate F))
      → length (sort_candidates fl sorted cs) ≡ length sorted + length cs
  unfolding sort_candidates
  length-sort_candidates sorted [] = omega arith
  length-sort_candidates sorted (c ∷ cs) = omega (
    arith,
    length-sort_candidates (insert_candidate fl c sorted) cs,
    length-insert_candidate c sorted,
  )

  -- The best of a pool is one of it.
  best-All :
      (P : Beam F → Type 0) (g : BeamGroup F) (b : Beam F) (pool : List (Beam F))
      → P b
      → All P pool
      → P (best fl g b pool)
  unfolding best
  best-All P g b [] p h = p
  best-All P g b (c ∷ pool) p (q, h) = elim (Bool-cases (fl.lt_f (score fl g b) (score fl g c))) [
    | inl above ↦ rw (above, best) (best-All P g c pool q h)
    | inr below ↦ rw (below, best) (best-All P g b pool p h)
  ]

  pool_ends :
      (g : BeamGroup F) (n : ℕ) (pool : List (Beam F)) (why : FinishReason)
      → All (Within n) pool
      → 0 < length pool
      → (r : List ℕ) × ((finalize_pool fl g pool why g).0 ≡ ok tt)
        × ((finalize_pool fl g pool why g).1.result ≡ some r)
        × (length r ≤ n - prompt_len g)
  unfolding finalize_pool
  pool_ends g n [] why h p = absurd (omega arith)
  pool_ends g n (b ∷ pool) why (q, h) p =
      let winner = best fl g b pool in
      (
        drop (prompt_len g) winner.token_ids,
        refl,
        refl,
        omega
            (arith, best-All (Within n) g b pool q h, length-drop (prompt_len g) winner.token_ids),
      )

  -- A group with some beam ends with a result no longer than its beams.
  finalize-ends :
      (g : BeamGroup F) (n : ℕ)
      → All (Within n) g.beams
      → All (Within n) g.finished
      → 0 < length g.beams + length g.finished
      → (r : List ℕ) × ((finalize fl g).0 ≡ ok tt)
        × ((finalize fl g).1.result ≡ some r)
        × (length r ≤ n - prompt_len g)
  unfolding finalize
  finalize-ends g n h k p = elim (List-cases g.finished) [
    | inl e ↦
        rw (e, finalize) (pool_ends g n g.beams length_limit h (omega (arith, p, ap length e)))
    | inr (b, bs, e) ↦
        rw (e, finalize) (pool_ends g n (b ∷ bs) stop (subst (All (Within n)) e k) (omega arith))
  ]

not_off : ¬ (true ≡ false)
not_off e = cc

goes_on :
    {F : Type 0} (g : BeamGroup F) (k : ℕ) (beams : List (Beam F))
    → All (HasLen (prompt_len g + k + 1)) beams
    → is_over g beams ≡ false
    → (0 < length beams) × (k + 1 < g.max_new_tokens)
unfolding is_over reached_max_len
goes_on g k [] same on = absurd (not_off on)
goes_on g k (b ∷ bs) (long, same) on = ground (arith, long)

first_counts :
    {F : Type 0} (cs : List (Candidate F)) (n : ℕ)
    → 0 < n
    → 0 < length cs
    → first_child cs (ltb 0 n) ≡ 1
first_counts [] n p q = absurd (omega arith)
first_counts (c ∷ cs) n p q = ground arith

module _ (rt : Runtime) where
  open rt use {Float, floats}

  -- A group that is still running: its beams all have `k` new tokens, there is one but no more than
  -- asked for, and beams that stopped have no more tokens than these.
  pub record IsActive (g : BeamGroup Float) (k : ℕ) : Type 0 where
    pub same_len : All (HasLen (prompt_len g + k)) g.beams
    pub ended : All (Within (prompt_len g + k)) g.finished
    pub few : length g.beams ≤ g.num_beams
    pub some_beam : 0 < length g.beams
    pub undone : g.result ≡ none
    pub below : k < g.max_new_tokens

  -- What a step leaves: a group that goes on with one more token, or one that is done.
  abbrev pub Settled : BeamGroup Float → ℕ → BeamGroup Float → Type 0
  Settled g k g' =
      (IsActive g' (k + 1) × (g'.max_new_tokens ≡ g.max_new_tokens))
      ⊎ ((r : List ℕ) × (g'.result ≡ some r) × (length r ≤ k + 1))

  conclude-Settled :
      (g : BeamGroup Float) (k : ℕ)
      → All (HasLen (prompt_len g + k + 1)) g.beams
      → All (Within (prompt_len g + k + 1)) g.finished
      → length g.beams ≤ g.num_beams
      → 0 < length g.beams + length g.finished
      → g.result ≡ none
      → (g' : BeamGroup Float) × (conclude rt g ≡ ok g') × Settled g k g'
  unfolding conclude
  conclude-Settled g k same ended few some_beam undone =
      let (r, done, result, short) =
        finalize-ends floats g (prompt_len g + k + 1)
          (All-map (λ b h. omega (arith, h)) g.beams same) ended some_beam in
      elim (Bool-cases (is_over g g.beams)) [
        | inl over ↦
            ((finalize floats g).1, rw over (rw done), inr (r, result, omega (arith, short)))
        | inr on ↦
            let (some_beam, below) = goes_on g k g.beams same on in
            (
              g,
              rw on,
              inl (
                record {
                  same_len = All-map (λ b h. omega (arith, h)) g.beams same;
                  ended = All-map (λ b h. omega (arith, h)) g.finished ended;
                  few = few;
                  some_beam = some_beam;
                  undone = undone;
                  below = below;
                },
                refl,
              ),
            )
      ]

  -- From a running group of at least one wanted beam and at least one candidate, each of a beam of the
  -- group, the end of a step does not raise: the group goes on, with one more token in each beam and
  -- still below the limit, or it is done, with a result of at most as many tokens as steps were made.
  pub settle-Settled :
      (g : BeamGroup Float) (k : ℕ) (cs : List (Candidate Float))
      → IsActive g k
      → 0 < g.num_beams
      → 0 < length cs
      → All (HasParent g) cs
      → (g' : BeamGroup Float) × (settle rt g cs ≡ ok g') × Settled g k g'
  unfolding settle
  settle-Settled g k cs active wanted some_candidate parents =
      let sorted = sort_candidates floats [] cs in
      let (beams, finished, run, sel) =
        select-Selected g (prompt_len g + k) sorted [] g.finished
          (sort_candidates-All floats (HasParent g) [] cs tt parents) active.same_len tt
          (All-map (λ b h. omega (arith, h)) g.finished active.ended) (omega arith) in
      let one_more =
        first_counts sorted g.num_beams wanted
          (omega (arith, some_candidate, length-sort_candidates floats [] cs)) in
      rw (run, settle)
        (conclude-Settled (record g { beams = beams; finished = finished }) k sel.same_len sel.ended
          sel.few (omega (arith, sel.some_child, one_more)) active.undone)
