-- ===== src/Speculative/Draft.antt =====
-- What the draft of src/wllm/engine/speculative.py is: the continuation of the most recent earlier
-- occurrence of the history's tail.
use w_llm.Base.{
  ℕ, zero, suc, ◌+◌, ◌-◌, ◌≤◌, ◌<◌, ◌≡◌, ◌≢◌, refl, ◌∙◌, sym, ap, subst, inl, inr, true, Option,
  none, some, List, [], ◌∷◌, length, length-take, length-drop, take, drop, ltb, ltb→lt, list_beq→eq,
  list_beq_self, Bool-cases, arith,
}
use w_llm.Speculative.{occurs_at, draft_at, non_empty, search_back, last_n, propose_ngram_draft}

take-drop-take :
    (n s m : ℕ) (h : List ℕ) → s + n ≤ m → take n (drop s (take m h)) ≡ take n (drop s h)
take-drop-take zero s m h p = refl
take-drop-take (suc n) zero zero h p = absurd (omega arith)
take-drop-take (suc n) zero (suc m) [] p = refl
take-drop-take (suc n) zero (suc m) (x ∷ h) p = ap (◌∷◌ x) (take-drop-take n zero m h (omega arith))
take-drop-take (suc n) (suc s) zero h p = absurd (omega arith)
take-drop-take (suc n) (suc s) (suc m) [] p = refl
take-drop-take (suc n) (suc s) (suc m) (x ∷ h) p = take-drop-take (suc n) s m h (omega arith)

-- The first hit of a search from `rounds - 1` down.
record Hit (history space query : List ℕ) (n k rounds start : ℕ) (d : List ℕ) : Type 0 where
  inside : start < rounds
  here : occurs_at space n start query ≡ true
  drafted : d ≡ draft_at history n k start
  some_token : d ≢ []
  latest :
      (s : ℕ)
      → start < s
      → s < rounds
      → occurs_at space n s query ≡ true
      → draft_at history n k s ≡ []

abbrev Search : List ℕ → List ℕ → List ℕ → ℕ → ℕ → ℕ → Option (List ℕ) → Type 0
Search history space query n k rounds none =
    (s : ℕ) → s < rounds → occurs_at space n s query ≡ true → draft_at history n k s ≡ []
Search history space query n k rounds (some d) =
    (start : ℕ) × Hit history space query n k rounds start d

module _ (history space query : List ℕ) (n k : ℕ) where
  -- A start that gives nothing is passed over.
  pass :
      (rounds : ℕ) (r : Option (List ℕ))
      → (occurs_at space n rounds query ≡ true → draft_at history n k rounds ≡ [])
      → Search history space query n k rounds r
      → Search history space query n k (suc rounds) r
  pass rounds none dry ih = λ s p q. elim (Bool-cases (ltb s rounds)) [
    | inl below ↦ ih s (ground arith) q
    | inr top ↦
        let e : s ≡ rounds = ground arith in
        subst (λ x. occurs_at space n x query ≡ true → draft_at history n k x ≡ []) (sym e) dry q
  ]
  pass rounds (some d) dry (start, hit) = (
    start,
    record {
      inside = omega (arith, hit.inside);
      here = hit.here;
      drafted = hit.drafted;
      some_token = hit.some_token;
      latest = λ s a p q. elim (Bool-cases (ltb s rounds)) [
        | inl below ↦ hit.latest s a (ground arith) q
        | inr top ↦
            let e : s ≡ rounds = ground arith in
            subst (λ x. occurs_at space n x query ≡ true → draft_at history n k x ≡ []) (sym e) dry
              q
      ];
    },
  )

  search_back-Search :
      (rounds : ℕ)
      → Search history space query n k rounds (search_back history space query n k rounds)
  unfolding search_back
  search_back-Search zero = λ s p. absurd (omega arith)
  search_back-Search (suc start) =
      let rest = search_back history space query n k start in
      let ih = search_back-Search start in
      elim (Bool-cases (occurs_at space n start query)) [
        | inr miss ↦ rw miss (pass start rest (λ q. cc) ih)
        | inl hit ↦ rw hit (found hit rest ih (draft_at history n k start) refl)
      ]
    where
      found :
          occurs_at space n start query ≡ true
          → (rest : Option (List ℕ)) → Search history space query n k start rest
          → (d : List ℕ) → draft_at history n k start ≡ d
          → Search history space query n k (suc start) (non_empty d rest)
      found hit rest ih [] e = pass start rest (λ _. e) ih
      found hit rest ih (x ∷ xs) e = (
        start,
        record {
          inside = omega arith;
          here = hit;
          drafted = sym e;
          some_token = λ q. cc;
          latest = λ s a p q. absurd (omega arith);
        },
      )

-- The last `n` tokens of the history stand at `s` as well, before the tail begins.
abbrev pub Repeats : List ℕ → ℕ → ℕ → Type 0
Repeats h n s = (s + n + n ≤ length h) × (take n (drop s h) ≡ drop (length h - n) h)

-- What a draft promises.
abbrev pub IsDraft : List ℕ → ℕ → ℕ → Option (List ℕ) → Type 0
IsDraft h n k none = (s : ℕ) → ¬ Repeats h n s
IsDraft h n k (some d) =
    (start : ℕ) × Repeats h n start
    × (d ≡ take k (drop (start + n) h))
    × (d ≢ [])
    × ((s : ℕ) → start < s → ¬ Repeats h n s)

module _ (h : List ℕ) (n k : ℕ) (long : suc n + 1 ≤ length h) where
  abbrev space : List ℕ
  space = take (length h - suc n) h

  space-length : length space ≡ length h - suc n
  space-length = length-take (length h - suc n) h ∙ omega arith

  -- A start inside the search is one at which the tail stands, or does not, in the history.
  occurs→Repeats :
      (s : ℕ)
      → s < length space + 1 - suc n
      → occurs_at space (suc n) s (last_n (suc n) h) ≡ true
      → Repeats h (suc n) s
  unfolding occurs_at last_n
  occurs→Repeats s p q = (
    omega (arith, space-length),
    sym (take-drop-take (suc n) s (length h - suc n) h (omega (arith, space-length)))
        ∙ list_beq→eq _ _ q,
  )

  Repeats→occurs :
      (s : ℕ)
      → Repeats h (suc n) s
      → (s < length space + 1 - suc n) × (occurs_at space (suc n) s (last_n (suc n) h) ≡ true)
  unfolding occurs_at last_n
  Repeats→occurs s (p, q) = (
    omega (arith, space-length),
    rw (take-drop-take (suc n) s (length h - suc n) h (omega arith) ∙ q)
        (list_beq_self (drop (length h - suc n) h)),
  )

  -- Some token follows each repeat.
  draft-some : (s : ℕ) → Repeats h (suc n) s → draft_at h (suc n) (suc k) s ≢ []
  unfolding draft_at
  draft-some s r e =
      let more : 0 < length (drop (s + suc n) h) = omega (arith, length-drop (s + suc n) h, r.0) in
      absurd (omega (arith, ap length e, length-take (suc k) (drop (s + suc n) h), more))

  Search→IsDraft :
      (r : Option (List ℕ))
      → Search h space (last_n (suc n) h) (suc n) (suc k) (length space + 1 - suc n) r
      → IsDraft h (suc n) (suc k) r
  unfolding draft_at
  Search→IsDraft none none_found =
      λ s r. let (p, q) = Repeats→occurs s r in draft-some s r (none_found s p q)
  Search→IsDraft (some d) (start, hit) = (
    start,
    occurs→Repeats start hit.inside hit.here,
    hit.drafted,
    hit.some_token,
    λ s a r. let (p, q) = Repeats→occurs s r in draft-some s r (hit.latest s a p q),
  )

propose_suc :
    (h : List ℕ) (n k : ℕ) → IsDraft h (suc n) (suc k) (propose_ngram_draft h (suc n) (suc k))
unfolding propose_ngram_draft
propose_suc h n k = elim (Bool-cases (ltb (length h) (suc n + 1))) [
  | inl short ↦ rw short (λ s r. omega (arith, r.0, ltb→lt _ _ short))
  | inr long ↦
      let room : suc n + 1 ≤ length h = ground arith in
      rw long
        (Search→IsDraft h n k room _ (search_back-Search h (space h n k room) _ (suc n) (suc k) _))
]

-- With a tail and a draft of at least one token: a draft is what followed the most recent earlier
-- occurrence of the last `n` tokens that does not overlap them, cut at `k` tokens and not empty; no
-- draft means that there is no such occurrence.
pub propose-IsDraft :
    (h : List ℕ) (n k : ℕ) → 0 < n → 0 < k → IsDraft h n k (propose_ngram_draft h n k)
propose-IsDraft h zero k p q = absurd (omega arith)
propose-IsDraft h (suc n) zero p q = absurd (omega arith)
propose-IsDraft h (suc n) (suc k) p q = propose_suc h n k
