-- ===== src/Api/RateLimit/Limit.antt =====
-- The limiter of src/wllm/api/rate_limit.py keeps to its limit, client by client.
use w_llm.Base.{
  ℕ, ◌≤◌, ◌<◌, ◌≡◌, refl, sym, ◌∙◌, true, false, text_beq_iff, List, [], ◌∷◌, ◌++◌, length,
  length-append, list_beq, leb, if◌then◌else◌, arith, Bool-cases, ◌⊎◌, inl, inr, text_eq,
}
use w_llm.Base.Dict.{Dict, put, get-put}
use w_llm.Base.Outcome.{Result, ok}
use w_llm.Api.StopStrings.{Text}
use w_llm.Api.RateLimit.{
  Clock, Request, Answer, unlimited, admitted, rejected, starts_with, v1_path, client_key, hits_of,
  trim, turn_away, dispatch,
}

true_not_false : ¬ (true ≡ false)
true_not_false = cc

module _ {M : Type 0} where
  hits_of-put :
      (d : Dict Text (List M)) (k j : Text) (hits : List M)
      → hits_of (put d k hits) j ≡ (if list_beq k j then hits else hits_of d j)
  unfolding hits_of
  hits_of-put d k j hits = ground (arith, get-put d k j hits)

  hits_of-put_self :
      (d : Dict Text (List M)) (k : Text) (hits : List M) → hits_of (put d k hits) k ≡ hits
  hits_of-put_self d k hits =
      let same : list_beq k k ≡ true = (text_beq_iff k k).1 refl in
      rw (hits_of-put d k k hits) (rw same refl)

  -- A limited request of a client with `hits` in the window: below the limit it is admitted and counted,
  -- at the limit it is turned away with the wait that its oldest hit leaves, and not counted.
  abbrev pub Counted : Clock M → ℕ → M → List M → Answer → List M → Type 0
  Counted clock limit now hits answer after =
      ((length hits < limit) × (answer ≡ admitted) × (after ≡ hits ++ now ∷ []))
      ⊎ ((limit ≤ length hits)
          × (after ≡ hits)
          × ((oldest : M) × (rest : List M) × (hits ≡ oldest ∷ rest)
              × (answer ≡ rejected (clock.retry_after now oldest))))

  -- What a request leaves: an answer, its count, no client above the limit, and other clients as they were.
  pub record Limited (clock : Clock M) (limit : ℕ) (now : M) (q : Request) (d : Dict Text (List M))
      (r : Result Answer × Dict Text (List M)) : Type 0 where
    pub answer : Answer
    pub answered : r.0 ≡ ok answer
    pub free : starts_with v1_path q.path ≡ false → (answer ≡ unlimited) × (r.1 ≡ d)
    pub counted :
        starts_with v1_path q.path ≡ true
        → Counted clock limit now
            (trim clock now (hits_of d (client_key q)))
            answer
            (hits_of r.1 (client_key q))
    pub within : (k : Text) → length (hits_of r.1 k) ≤ limit
    pub others : (k : Text) → (list_beq (client_key q) k ≡ true) ⊎ (hits_of r.1 k ≡ hits_of d k)

  put-within :
      (limit : ℕ) (d : Dict Text (List M)) (key : Text) (hits : List M)
      → ((k : Text) → length (hits_of d k) ≤ limit)
      → length hits ≤ limit
      → (k : Text) → length (hits_of (put d key hits) k) ≤ limit
  put-within limit d key hits h p k = elim (Bool-cases (list_beq key k)) [
    | inl same ↦ rw (hits_of-put d key k hits) (rw same p)
    | inr other ↦ rw (hits_of-put d key k hits) (rw other (h k))
  ]

  put-others :
      (d : Dict Text (List M)) (key : Text) (hits : List M) (k : Text)
      → (list_beq key k ≡ true) ⊎ (hits_of (put d key hits) k ≡ hits_of d k)
  put-others d key hits k = elim (Bool-cases (list_beq key k)) [
    | inl same ↦ inl same
    | inr other ↦ inr (rw (hits_of-put d key k hits) (rw other))
  ]

  module _ (clock : Clock M) where
    length-trim : (now : M) (hits : List M) → length (trim clock now hits) ≤ length hits
    unfolding trim
    length-trim now [] = omega arith
    length-trim now (h ∷ hits) = ground (arith, length-trim now hits)

    turn_away-answers :
        (now : M) (hits : List M)
        → 0 < length hits
        → (oldest : M) × (rest : List M) × (hits ≡ oldest ∷ rest)
          × (turn_away clock now hits ≡ ok (rejected (clock.retry_after now oldest)))
    unfolding turn_away
    turn_away-answers now [] p = absurd (omega arith)
    turn_away-answers now (h ∷ hits) p = (h, hits, refl, refl)

    -- With a positive limit that no client exceeds, a request is answered and no client exceeds the limit
    -- afterwards. A path that is not limited changes nothing. Of the client that sent it, the hits that
    -- left the window are dropped; with fewer than the limit left the request is admitted and counted, and
    -- otherwise it is turned away, with the wait that the oldest of them leaves, and not counted. Other
    -- clients' hits stay as they were.
    pub dispatch-Limited :
        (limit : ℕ) (now : M) (r : Request) (d : Dict Text (List M))
        → 0 < limit
        → ((k : Text) → length (hits_of d k) ≤ limit)
        → Limited clock limit now r d (dispatch clock limit now r d)
    unfolding dispatch
    dispatch-Limited limit now r d some_limit h =
        let key = client_key r in
        let hits = trim clock now (hits_of d key) in
        let short : length hits ≤ limit = omega (arith, length-trim now (hits_of d key), h key) in
        elim (Bool-cases (starts_with v1_path r.path)) [
          | inr free ↦ rw free (record {
            answer = unlimited;
            answered = refl;
            free = λ _. (refl, refl);
            counted = λ yes. absurd (true_not_false (sym yes ∙ free));
            within = h;
            others = λ k. inr refl;
          })
          | inl counted ↦ elim (Bool-cases (leb limit (length hits))) [
            | inl full ↦
                let (oldest, rest, same, answered) = turn_away-answers now hits (ground arith) in
                rw counted (
                  rw full (record {
                    answer = rejected (clock.retry_after now oldest);
                    answered = answered;
                    free = λ no. absurd (true_not_false (sym counted ∙ no));
                    counted = λ _.
                        inr (ground arith, hits_of-put_self d key hits, (oldest, rest, same, refl));
                    within = put-within limit d key hits h short;
                    others = put-others d key hits;
                  }))
            | inr room ↦
                let more : length (hits ++ now ∷ []) ≤ limit =
                  ground (arith, length-append hits (now ∷ [])) in
                rw counted (
                  rw room (record {
                    answer = admitted;
                    answered = refl;
                    free = λ no. absurd (true_not_false (sym counted ∙ no));
                    counted =
                        λ _. inl (ground arith, refl, hits_of-put_self d key (hits ++ now ∷ []));
                    within = put-within limit d key (hits ++ now ∷ []) h more;
                    others = put-others d key (hits ++ now ∷ []);
                  }))
          ]
        ]
