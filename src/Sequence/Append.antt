-- ===== src/Sequence/Append.antt =====
-- What a run of append_token of src/wllm/engine/sequence.py leaves: how long the output gets, and when
-- the sequence ends.
use w_llm.Base.{
  ℕ, suc, ◌+◌, ◌≤◌, ◌<◌, ◌≡◌, refl, ◌∙◌, sym, ap, ◌⊎◌, inl, inr, true, false, List, [], ◌∷◌, ◌++◌,
  length, length-append, take, length-take, map, length-map, if◌then◌else◌, arith, Bool-cases,
}
use mathlib.Core.List.{append_assoc, append-nil}
use w_llm.Sequence.{Sequence, Guides, append_token, is_finished, ends, with_token}

module _ {F G : Type 0} (gs : Guides G) where
  -- The tokens are appended one by one, and nothing after the one that ends the sequence.
  unfoldable pub append_until_finished : Sequence F G → List (ℕ × F) → Sequence F G
  append_until_finished s [] = s
  append_until_finished s ((token_id, logprob) ∷ rest) =
      let s' = append_token gs s token_id logprob in
      let more = append_until_finished s' rest in if is_finished s' then s' else more

  -- An unfinished sequence is within its limit, and has one log-probability for each token.
  pub record IsOpen (s : Sequence F G) : Type 0 where
    pub room : length s.output_token_ids < s.max_new_tokens
    pub paired : length s.logprobs ≡ length s.output_token_ids
    pub going : is_finished s ≡ false

  -- A token that does not end the sequence leaves room for another.
  open_room :
      (s : Sequence F G) (t : ℕ) (lp : F)
      → ends gs (with_token gs s t lp) t ≡ false
      → length (s.output_token_ids ++ t ∷ []) < s.max_new_tokens
  open_room s t lp go = ground arith

  -- One token more, and the sequence is finished exactly if the token is a stop, the guide is done
  -- or the limit is reached; otherwise it is open again.
  pub append_token-IsOpen :
      (s : Sequence F G) (t : ℕ) (lp : F)
      → IsOpen s
      → ((append_token gs s t lp).output_token_ids ≡ s.output_token_ids ++ t ∷ [])
        × (is_finished (append_token gs s t lp) ≡ ends gs (with_token gs s t lp) t)
        × (length (append_token gs s t lp).output_token_ids ≤ s.max_new_tokens)
        × (is_finished (append_token gs s t lp) ≡ false → IsOpen (append_token gs s t lp))
  unfolding append_token
  append_token-IsOpen s t lp o = elim (Bool-cases (ends gs (with_token gs s t lp) t)) [
    | inl stop ↦
        rw stop
          (refl, refl, omega (arith, o.room, length-append s.output_token_ids (t ∷ [])), λ q. cc)
    | inr go ↦ rw go (
      refl,
      o.going,
      omega (arith, o.room, length-append s.output_token_ids (t ∷ [])),
      λ _. record {
        room = open_room s t lp go;
        paired = omega (
          arith,
          o.paired,
          length-append s.logprobs (lp ∷ []),
          length-append s.output_token_ids (t ∷ []),
        );
        going = o.going;
      },
    )
  ]

  -- What a run over the proposed tokens keeps.
  pub record Ran (s : Sequence F G) (ts : List (ℕ × F)) (r : Sequence F G) : Type 0 where
    pub kept : ℕ
    pub within : kept ≤ length ts
    pub output : r.output_token_ids ≡ s.output_token_ids ++ take kept (map (λ p. p.0) ts)
    pub limit : length r.output_token_ids ≤ s.max_new_tokens
    pub same_limit : r.max_new_tokens ≡ s.max_new_tokens
    pub outcome : (is_finished r ≡ true) ⊎ (IsOpen r × (kept ≡ length ts))

  same_max :
      (s : Sequence F G) (t : ℕ) (lp : F)
      → (append_token gs s t lp).max_new_tokens ≡ s.max_new_tokens
  unfolding append_token
  same_max s t lp = ground arith

  pub run-Ran :
      (s : Sequence F G) (ts : List (ℕ × F)) → IsOpen s → Ran s ts (append_until_finished s ts)
  unfolding append_until_finished
  run-Ran s [] o = record {
    kept = 0;
    within = omega arith;
    output = sym (append-nil s.output_token_ids);
    limit = omega (arith, o.room);
    same_limit = refl;
    outcome = inr (o, refl);
  }
  run-Ran s ((t, lp) ∷ ts) o =
      let (out, _, limit, opens) = append_token-IsOpen s t lp o in
      elim (Bool-cases (is_finished (append_token gs s t lp))) [
        | inl done ↦ rw done (record {
          kept = 1;
          within = omega arith;
          output = out;
          limit = limit;
          same_limit = same_max s t lp;
          outcome = inl done;
        })
        | inr going ↦
            let rest = run-Ran (append_token gs s t lp) ts (opens going) in
            rw going (record {
              kept = suc rest.kept;
              within = omega (arith, rest.within);
              output =
                  rest.output
                  ∙ ap (λ x. x ++ take rest.kept (map (λ p. p.0) ts)) out
                  ∙ append_assoc s.output_token_ids (t ∷ []) (take rest.kept (map (λ p. p.0) ts));
              limit = omega (arith, rest.limit, same_max s t lp);
              same_limit = rest.same_limit ∙ same_max s t lp;
              outcome = elim rest.outcome [
                | inl end ↦ inl end
                | inr (o', all) ↦ inr (o', ap suc all)
              ];
            })
      ]

  -- Given at least as many tokens as there is room for, an open sequence finishes, within its limit,
  -- with a prefix of them appended.
  pub append_until_finished_total :
      (s : Sequence F G) (ts : List (ℕ × F))
      → IsOpen s
      → s.max_new_tokens ≤ length s.output_token_ids + length ts
      → (is_finished (append_until_finished s ts) ≡ true)
        × (length (append_until_finished s ts).output_token_ids ≤ s.max_new_tokens)
        × ((n : ℕ) × ((append_until_finished s ts).output_token_ids
              ≡ s.output_token_ids ++ take n (map (λ p. p.0) ts)))
  append_until_finished_total s ts o enough =
      let ran = run-Ran s ts o in
      (
        elim ran.outcome [
          | inl end ↦ end
          | inr (o', all) ↦
              let kept : length (map (λ (p : ℕ × F). p.0) ts) ≡ length ts = length-map ts _ in
              absurd (
                omega (
                  arith,
                  o'.room,
                  ran.same_limit,
                  ap length ran.output,
                  length-append s.output_token_ids (take ran.kept (map (λ p. p.0) ts)),
                  length-take ran.kept (map (λ (p : ℕ × F). p.0) ts),
                  kept,
                ))
        ],
        ran.limit,
        (ran.kept, ran.output),
      )
