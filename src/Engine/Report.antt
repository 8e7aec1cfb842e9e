-- ===== src/Engine/Report.antt =====
-- What callers of src/wllm/engine/async_engine.py receive: each token once while a sequence's output
-- grows, and some tokens again when it was started over.
use w_llm.Base.{
  ℕ, zero, suc, ◌≤◌, ◌≡◌, refl, ◌∙◌, sym, ap, ◌⊎◌, inl, inr, Bool, true, false, some, List, [], ◌∷◌,
  ◌++◌, length, drop, if◌then◌else◌, arith, Bool-cases,
}
use mathlib.Core.List.{append-nil, append_assoc}
use w_llm.Base.Int.{ℤ, int_eq, int_beq_iff}
use w_llm.Base.Dict.{Dict, get, get-put}
use w_llm.Base.Outcome.{ok}
use w_llm.Api.StopStrings.{Text}
use w_llm.Api.StopStrings.Prefix.{drop-append}
use w_llm.Detokenizer.{IncrementalDetokenizer, add_token, add_tokens}
use w_llm.Sequence.{is_finished}
use w_llm.Runtime.{Runtime}
use w_llm.Scheduler.{Seq, member}
use w_llm.Engine.{
  AsyncEngine, Item, delta, done, items_of, put_items, deltas_of, already_reported, report,
  close_stream, on_token,
}

pub items_of-put_items :
    (id j : ℤ) (xs : List Item) (d : Dict ℤ (List Item))
    → items_of (put_items id xs d) j
      ≡ (if int_eq.beq id j then items_of d id ++ xs else items_of d j)
unfolding put_items
items_of-put_items id j xs d = ground (arith, get-put d id j (items_of d id ++ xs))

pub items_of-put_items_self :
    (id : ℤ) (xs : List Item) (d : Dict ℤ (List Item))
    → items_of (put_items id xs d) id ≡ items_of d id ++ xs
items_of-put_items_self id xs d = ground (arith, items_of-put_items id id xs d, int_beq_iff id id)

-- The end of a stream.
abbrev pub closing : Bool → List Item
closing true = done ∷ []
closing false = []

drop_all : (n : ℕ) (ts : List ℕ) → length ts ≤ n → drop n ts ≡ []
drop_all zero [] h = refl
drop_all zero (t ∷ ts) h = absurd (omega arith)
drop_all (suc n) [] h = refl
drop_all (suc n) (t ∷ ts) h = drop_all n ts (omega arith)

module _ (decode : List ℕ → Text) where
  token_ids-add_tokens :
      (ts : List ℕ) (d : IncrementalDetokenizer)
      → (add_tokens decode ts d).1.token_ids ≡ d.token_ids ++ ts
  unfolding add_tokens
  token_ids-add_tokens [] d = sym (append-nil d.token_ids)
  token_ids-add_tokens (t ∷ ts) d =
      token_ids-add_tokens ts (add_token decode t d).1 ∙ append_assoc d.token_ids (t ∷ []) ts

  module _ {rt : Runtime} where
    -- A caller listens to `id`, and has been sent the tokens `output`.
    pub record Streams (id : ℤ) (output : List ℕ) (s : AsyncEngine rt) : Type 0 where
      pub listens : member id s.queues ≡ true
      pub detok : IncrementalDetokenizer
      pub found : get s.detokenizers id ≡ some detok
      pub seen : detok.token_ids ≡ output
      pub reported : already_reported decode id s ≡ length output

    -- A report for a sequence that somebody listens to.
    on_token_run :
        (q : Seq rt) (s : AsyncEngine rt) (detok : IncrementalDetokenizer)
        → member q.seq_id s.queues ≡ true
        → get s.detokenizers q.seq_id ≡ some detok
        → let s' = report decode q.seq_id q.output_token_ids detok s in
          on_token {rt = rt} decode q s
          ≡ (ok tt, if is_finished q then close_stream decode q.seq_id s' else s')
    unfolding on_token
    on_token_run q s detok listens found = rw listens (rw found)

    -- What a report leaves in the queue.
    report-items :
        (id : ℤ) (output : List ℕ) (detok : IncrementalDetokenizer) (s : AsyncEngine rt)
        (new : List ℕ)
        → drop (already_reported decode id s) output ≡ new
        → items_of (report decode id output detok s).items id
          ≡ items_of s.items id ++ deltas_of (add_tokens decode new detok).0
    unfolding report
    report-items id output detok s new fresh =
        items_of-put_items_self id _ s.items
        ∙ ap (λ ts. items_of s.items id ++ deltas_of (add_tokens decode ts detok).0) fresh

    -- What a report leaves of the caller's state.
    report_kept :
        (id : ℤ) (output : List ℕ) (detok : IncrementalDetokenizer) (s : AsyncEngine rt)
        (new : List ℕ)
        → drop (already_reported decode id s) output ≡ new
        → (get (report decode id output detok s).detokenizers id
            ≡ some (add_tokens decode new detok).1)
          × (already_reported decode id (report decode id output detok s) ≡ length output)
          × ((report decode id output detok s).queues ≡ s.queues)
    unfolding report
    report_kept id output detok s new fresh =
        let pieces = add_tokens decode (drop (already_reported decode id s) output) detok in
        (
          ground (arith, get-put s.detokenizers id id pieces.1, int_beq_iff id id)
              ∙ ap (λ ts. some (add_tokens decode ts detok).1) fresh,
          ground (arith, get-put s.reported_count id id (length output), int_beq_iff id id),
          refl,
        )

    close_stream-items :
        (id : ℤ) (s : AsyncEngine rt)
        → items_of (close_stream decode id s).items id ≡ items_of s.items id ++ done ∷ []
    unfolding close_stream
    close_stream-items id s = items_of-put_items_self id (done ∷ []) s.items

    -- After a report the caller is up to date.
    report-Streams :
        (id : ℤ) (old new output : List ℕ) (s : AsyncEngine rt) (str : Streams id old s)
        → drop (already_reported decode id s) output ≡ new
        → output ≡ old ++ new
        → Streams id output (report decode id output str.detok s)
    report-Streams id old new output s str fresh e =
        let (found, reported, queues) = report_kept id output str.detok s new fresh in
        record {
          listens = ap (member id) queues ∙ str.listens;
          detok = (add_tokens decode new str.detok).1;
          found = found;
          seen = token_ids-add_tokens new str.detok ∙ ap (λ ts. ts ++ new) str.seen ∙ sym e;
          reported = reported;
        }

    -- To a caller that is up to date with a part of the output, a report sends the text of each token
    -- behind that part, once and in order, and _DONE behind it if the sequence is finished; otherwise the
    -- caller is then up to date with the whole output.
    pub on_token-Streams :
        (q : Seq rt) (old new : List ℕ) (s : AsyncEngine rt) (str : Streams q.seq_id old s)
        → q.output_token_ids ≡ old ++ new
        → ((on_token {rt = rt} decode q s).0 ≡ ok tt)
          × (items_of (on_token {rt = rt} decode q s).1.items q.seq_id
              ≡ items_of s.items q.seq_id
                ++ (deltas_of (add_tokens decode new str.detok).0 ++ closing (is_finished q)))
          × ((is_finished q ≡ true)
              ⊎ Streams q.seq_id q.output_token_ids (on_token {rt = rt} decode q s).1)
    on_token-Streams q old new s str e =
        let fresh : drop (already_reported decode q.seq_id s) q.output_token_ids ≡ new =
          ap (λ n. drop n q.output_token_ids) str.reported
          ∙ ap (drop (length old)) e
          ∙ drop-append old new in
        let s' = report decode q.seq_id q.output_token_ids str.detok s in
        let sent = report-items q.seq_id q.output_token_ids str.detok s new fresh in
        rw (on_token_run q s str.detok str.listens str.found) (elim (Bool-cases (is_finished q)) [
          | inl ends ↦ rw ends (
            refl,
            close_stream-items q.seq_id s'
                ∙ ap (λ xs. xs ++ done ∷ []) sent
                ∙ append_assoc (items_of s.items q.seq_id)
                    (deltas_of (add_tokens decode new str.detok).0) (done ∷ []),
            inl refl,
          )
          | inr goes ↦ rw goes (
            refl,
            sent
                ∙ ap (λ xs. items_of s.items q.seq_id ++ xs)
                    (sym (append-nil (deltas_of (add_tokens decode new str.detok).0))),
            inr (report-Streams q.seq_id old new q.output_token_ids s str fresh e),
          )
        ])

    -- Somebody listens to a sequence that is not finished and has no more tokens than were sent, as when
    -- it was started over. A report then sends nothing, and counts back: of the token that comes next,
    -- whether or not it had been sent before, the text is sent.
    pub on_token-repeats :
        (q : Seq rt) (t : ℕ) (s : AsyncEngine rt) (detok : IncrementalDetokenizer)
        → member q.seq_id s.queues ≡ true
        → get s.detokenizers q.seq_id ≡ some detok
        → length q.output_token_ids ≤ already_reported decode q.seq_id s
        → is_finished q ≡ false
        → let once = (on_token {rt = rt} decode q s).1 in
          let more : Seq rt = record q { output_token_ids = q.output_token_ids ++ t ∷ [] } in
          (items_of once.items q.seq_id ≡ items_of s.items q.seq_id)
          × (items_of (on_token {rt = rt} decode more once).1.items q.seq_id
              ≡ items_of s.items q.seq_id ++ delta (add_token decode t detok).0 ∷ [])
    unfolding add_tokens
    on_token-repeats q t s detok listens found behind going =
        let out = q.output_token_ids in
        let more : Seq rt = record q { output_token_ids = out ++ t ∷ [] } in
        let none_new = drop_all (already_reported decode q.seq_id s) out behind in
        let s₁ = report decode q.seq_id out detok s in
        let sent =
          report-items q.seq_id out detok s [] none_new ∙ append-nil (items_of s.items q.seq_id) in
        let (found₁, reported₁, queues₁) = report_kept q.seq_id out detok s [] none_new in
        let one_new : drop (already_reported decode q.seq_id s₁) (out ++ t ∷ []) ≡ t ∷ [] =
          ap (λ n. drop n (out ++ t ∷ [])) reported₁ ∙ drop-append out (t ∷ []) in
        let again =
          report-items q.seq_id (out ++ t ∷ []) detok s₁ (t ∷ []) one_new
          ∙ ap (λ xs. xs ++ delta (add_token decode t detok).0 ∷ []) sent in
        rw (on_token_run q s detok listens found) (
          rw going (
            sent,
            rw (on_token_run more s₁ detok (ap (member q.seq_id) queues₁ ∙ listens) found₁)
                (rw going again),
          ))
