-- ===== src/Scheduler/Decode/Verify.antt =====
-- Speculative verification in src/wllm/engine/scheduler.py against decoding token by token.
use w_llm.Base.{
  ℕ, zero, suc, ◌+◌, ◌≤◌, ◌≡◌, refl, ◌∙◌, sym, ap, ◌⊎◌, inl, inr, true, List, [], ◌∷◌, ◌++◌, map,
  length, take, ◌==◌, ==_iff, arith, Bool-cases,
}
use mathlib.Core.List.{append-nil, append_assoc}
use w_llm.Base.Outcome.{ok}
use w_llm.Sequence.{Sequence, Guides, append_token, is_finished}
use w_llm.Sequence.Append.{IsOpen, append_token-IsOpen, append_until_finished}
use w_llm.Scheduler.Decode.{count_matched, accepted_tokens, keep_tokens}

-- Greedy decoding: the next token is a function of the tokens so far.
module _ (next : List ℕ → ℕ) where
  -- `n` tokens, one at a time.
  unfoldable pub greedy : List ℕ → ℕ → List ℕ
  greedy history zero = []
  greedy history (suc n) = next history ∷ greedy (history ++ next history ∷ []) n

  -- The rows of a verification pass: after the history, and after each draft token on top of it.
  abbrev pub Predicts : List ℕ → List ℕ → List ℕ → Type 0
  Predicts history draft [] = ⊥
  Predicts history [] (p ∷ ps) = (p ≡ next history) × (ps ≡ [])
  Predicts history (d ∷ ds) (p ∷ ps) = (p ≡ next history) × Predicts (history ++ d ∷ []) ds ps

  cons_accepted :
      (d : ℕ) (ps ds ts : List ℕ)
      → accepted_tokens ps ds ≡ ok ts
      → accepted_tokens (d ∷ ps) (d ∷ ds) ≡ ok (d ∷ ts)
  unfolding accepted_tokens
  cons_accepted d ps ds ts e = ground arith

  pub accepted_tokens-greedy :
      (history draft predicted : List ℕ)
      → Predicts history draft predicted
      → accepted_tokens predicted draft ≡ ok (greedy history (suc (count_matched predicted draft)))
  unfolding accepted_tokens count_matched greedy
  accepted_tokens-greedy history draft [] h = absurd h
  accepted_tokens-greedy history [] (p ∷ ps) (e, _) = ground arith
  accepted_tokens-greedy history (d ∷ ds) (p ∷ ps) (e, rest) = elim (Bool-cases (p == d)) [
    | inr miss ↦ ground arith
    | inl hit ↦
        let same : p ≡ d = (==_iff p d).0 hit in
        let one_more : count_matched (p ∷ ps) (d ∷ ds) ≡ suc (count_matched ps ds) = rw hit in
        ap (λ x. accepted_tokens (x ∷ ps) (d ∷ ds)) same
        ∙ cons_accepted d ps ds _ (accepted_tokens-greedy (history ++ d ∷ []) ds ps rest)
        ∙ ap (λ x. ok (x ∷ greedy (history ++ x ∷ []) (suc (count_matched ps ds)))) (sym same ∙ e)
        ∙ ap (λ x. ok (greedy history (suc x))) (sym one_more)
  ]

pub length-greedy :
    (next : List ℕ → ℕ) (history : List ℕ) (n : ℕ) → length (greedy next history n) ≡ n
unfolding greedy
length-greedy next history zero = refl
length-greedy next history (suc n) = ap suc (length-greedy next (history ++ next history ∷ []) n)

pub count_matched-le : (ps ds : List ℕ) → count_matched ps ds ≤ length ds
unfolding count_matched
count_matched-le [] ds = omega arith
count_matched-le (p ∷ ps) [] = omega arith
count_matched-le (p ∷ ps) (d ∷ ds) = ground (arith, count_matched-le ps ds)

ok_inj : {xs ys : List ℕ} → ok xs ≡ ok ys → xs ≡ ys
ok_inj e = cc

module _ {F G : Type 0} (gs : Guides G) (logprob : ℕ → ℕ → F) where
  -- The tokens with the log-probabilities of their rows.
  abbrev pub rows_from : ℕ → List ℕ → List (ℕ × F)
  rows_from j [] = []
  rows_from j (t ∷ ts) = (t, logprob j t) ∷ rows_from (j + 1) ts

  tokens-rows_from : (j : ℕ) (ts : List ℕ) → map (λ p. p.0) (rows_from j ts) ≡ ts
  tokens-rows_from j [] = refl
  tokens-rows_from j (t ∷ ts) = ap (◌∷◌ t) (tokens-rows_from (j + 1) ts)

  length-rows_from : (j : ℕ) (ts : List ℕ) → length (rows_from j ts) ≡ length ts
  length-rows_from j [] = refl
  length-rows_from j (t ∷ ts) = ap suc (length-rows_from (j + 1) ts)

  -- Keeping tokens is appending them until the sequence is finished.
  keep_tokens-append :
      (j : ℕ) (ts : List ℕ) (q : Sequence F G)
      → (keep_tokens gs logprob j ts q).0 ≡ append_until_finished gs q (rows_from j ts)
  unfolding keep_tokens append_until_finished
  keep_tokens-append j [] q = refl
  keep_tokens-append j (t ∷ ts) q =
      ground (arith, keep_tokens-append (j + 1) ts (append_token gs q t (logprob j t)))

  -- What an accepted run of tokens leaves: a prefix of them, all of them unless the sequence ended.
  pub record Kept (q : Sequence F G) (ts : List ℕ) (r : Sequence F G × ℕ) : Type 0 where
    pub within : r.1 ≤ length ts
    pub output : r.0.output_token_ids ≡ q.output_token_ids ++ take r.1 ts
    pub all : (is_finished r.0 ≡ true) ⊎ (r.1 ≡ length ts)

  pub keep_tokens-Kept :
      (j : ℕ) (ts : List ℕ) (q : Sequence F G)
      → IsOpen gs q
      → Kept q ts (keep_tokens gs logprob j ts q)
  unfolding keep_tokens
  keep_tokens-Kept j [] q o = record {
    within = omega arith;
    output = sym (append-nil q.output_token_ids);
    all = inr refl;
  }
  keep_tokens-Kept j (t ∷ ts) q o =
      let (out, _, _, opens) = append_token-IsOpen gs q t (logprob j t) o in
      elim (Bool-cases (is_finished (append_token gs q t (logprob j t)))) [
        | inl done ↦ rw done (record { within = omega arith; output = out; all = inl done })
        | inr going ↦
            let rest = keep_tokens-Kept (j + 1) ts _ (opens going) in
            let more = (keep_tokens gs logprob (j + 1) ts (append_token gs q t (logprob j t))).1 in
            rw going (record {
              within = omega (arith, rest.within);
              output =
                  rest.output
                  ∙ ap (λ x. x ++ take more ts) out
                  ∙ append_assoc q.output_token_ids (t ∷ []) (take more ts);
              all = elim rest.all [ inl end ↦ inl end | inr e ↦ inr (ap suc e) ];
            })
      ]
