-- ===== src/BeamSearch.antt =====
-- src/wllm/engine/beam_search.py: one beam-search request.
pub mod Settle
pub mod Safe
use w_llm.Base.{
  ℕ, ◌+◌, ◌-◌, ◌*◌, Bool, true, false, ◌||◌, Option, none, some, List, [], ◌∷◌, ◌++◌, length, drop,
  get_elem?, elem, ltb, leb, ◌==◌, if◌then◌else◌,
}
use w_llm.Base.Int.{ℤ, negsuc}
use w_llm.Base.Outcome.{Act, Result, ok, err, value_error, index_error, ◌>>=◌, ◌>>◌, pure}
use w_llm.Kv.Manager.{free_sequence}
use w_llm.Runtime.{Runtime, Floats}
use w_llm.Model.{Cache, prefill_with_cache_and_prefix_reuse}

pub record Beam (F : Type 0) : Type 0 where
  pub token_ids : List ℕ
  pub cum_logprob : F

pub data FinishReason : Type 0 where
  stop length_limit : FinishReason

pub record BeamGroup (F : Type 0) : Type 0 where
  pub group_id : ℕ
  pub prompt_token_ids : List ℕ
  pub max_new_tokens : ℕ
  pub num_beams : ℕ
  pub length_penalty : F
  pub eos_token_id : Option ℕ
  pub stop_token_ids : List ℕ
  pub lora_id : Option ℕ
  pub beams : List (Beam F)
  pub finished : List (Beam F)
  pub result : Option (List ℕ)
  pub finish_reason : Option FinishReason

-- (score, parent_beam_idx, token_id)
pub record Candidate (F : Type 0) : Type 0 where
  pub score : F
  pub parent : ℕ
  pub token : ℕ

module _ {F : Type 0} where
  abbrev pub prompt_len : BeamGroup F → ℕ
  prompt_len g = length g.prompt_token_ids

  abbrev pub is_done : BeamGroup F → Bool
  is_done g = elim g.result [ none ↦ false | some _ ↦ true ]

  unfoldable pub is_stop : BeamGroup F → ℕ → Bool
  is_stop g t =
      (elim g.eos_token_id [ none ↦ false | some eos ↦ t == eos ]) || elem t g.stop_token_ids

  -- BeamGroup(...): one beam, which is the prompt.
  unfoldable pub new_group :
      Floats F → ℕ → List ℕ → ℕ → ℕ → F → Option ℕ → List ℕ → Option ℕ → BeamGroup F
  new_group fl group_id prompt max_new_tokens num_beams length_penalty eos stops lora = record {
    group_id = group_id;
    prompt_token_ids = prompt;
    max_new_tokens = max_new_tokens;
    num_beams = num_beams;
    length_penalty = length_penalty;
    eos_token_id = eos;
    stop_token_ids = stops;
    lora_id = lora;
    beams = record { token_ids = prompt; cum_logprob = fl.zero_f } ∷ [];
    finished = [];
    result = none;
    finish_reason = none;
  }

  module _ (fl : Floats F) where
    unfoldable pub score : BeamGroup F → Beam F → F
    score g b =
        let n = length b.token_ids - prompt_len g in
        fl.div_f b.cum_logprob (fl.pow_f (if ltb n 1 then 1 else n) g.length_penalty)

    -- max(pool, key=self._score): the first of the best.
    unfoldable pub best : BeamGroup F → Beam F → List (Beam F) → Beam F
    unfolding score
    best g b [] = b
    best g b (c ∷ pool) = best g (if fl.lt_f (score g b) (score g c) then c else b) pool

    -- A stable sort, highest score first: a candidate goes behind those that are not below it.
    unfoldable pub insert_candidate : Candidate F → List (Candidate F) → List (Candidate F)
    insert_candidate c [] = c ∷ []
    insert_candidate c (d ∷ ds) =
        let rest = insert_candidate c ds in if fl.lt_f d.score c.score then c ∷ d ∷ ds else d ∷ rest

    unfoldable pub sort_candidates : List (Candidate F) → List (Candidate F) → List (Candidate F)
    unfolding insert_candidate
    sort_candidates sorted [] = sorted
    sort_candidates sorted (c ∷ cs) = sort_candidates (insert_candidate c sorted) cs

    unfoldable pub finalize_pool :
        BeamGroup F → List (Beam F) → FinishReason → Act (BeamGroup F) (Unit {0})
    finalize_pool g₀ [] why g = (err value_error, g)
    finalize_pool g₀ (b ∷ pool) why g = (
      ok tt,
      record g {
        result = some (drop (prompt_len g₀) (best g₀ b pool).token_ids);
        finish_reason = some why;
        beams = [];
      },
    )

    unfoldable pub finalize : Act (BeamGroup F) (Unit {0})
    unfolding finalize_pool best
    finalize g = elim g.finished [
      | [] ↦ finalize_pool g g.beams length_limit g
      | b ∷ bs ↦ finalize_pool g (b ∷ bs) stop g
    ]

  -- The loop over the sorted candidates, until `num_beams` children go on; stops are set aside.
  unfoldable pub select :
      BeamGroup F
      → List (Candidate F)
      → List (Beam F)
      → List (Beam F)
      → Result (List (Beam F) × List (Beam F))
  select g [] beams finished = ok (beams, finished)
  select g (c ∷ cs) beams finished = elim (leb g.num_beams (length beams)) [
    | true ↦ ok (beams, finished)
    | false ↦ elim (get_elem? g.beams c.parent) [
      | none ↦ err index_error
      | some p ↦
          let child : Beam F = record {
            token_ids = p.token_ids ++ c.token ∷ [];
            cum_logprob = c.score;
          } in
          elim (is_stop g c.token) [
            | true ↦ select g cs beams (finished ++ child ∷ [])
            | false ↦ select g cs (beams ++ child ∷ []) finished
          ]
    ]
  ]

  unfoldable pub reached_max_len : BeamGroup F → List (Beam F) → Bool
  reached_max_len g [] = false
  reached_max_len g (b ∷ bs) = leb g.max_new_tokens (length b.token_ids - prompt_len g)

-- not self.beams or len(self.finished) >= num_beams or reached_max_len
unfoldable pub is_over : {F : Type 0} → BeamGroup F → List (Beam F) → Bool
unfolding reached_max_len
is_over g [] = true
is_over g (b ∷ bs) = leb g.num_beams (length g.finished) || reached_max_len g (b ∷ bs)

-- -(group_id * 10_000 + i + 1)
unfoldable pub scratch_id : ℕ → ℕ → ℤ
scratch_id group_id i = negsuc (group_id * 10000 + i)

module _ (rt : Runtime) where
  open rt use {Float, Logits, floats, topk_last}

  abbrev candidates_from : Float → ℕ → List (Float × ℕ) → List (Candidate Float)
  candidates_from cum i [] = []
  candidates_from cum i ((logprob, token) ∷ rest) =
      record { score = floats.add_f cum logprob; parent = i; token = token }
      ∷ candidates_from cum i rest

  -- Each beam's continuations, with a scratch sequence that is freed at once.
  unfoldable pub expand :
      BeamGroup Float → ℕ → List (Beam Float) → Act (Cache rt) (List (Candidate Float))
  unfolding scratch_id
  expand g i [] = pure []
  expand g i (b ∷ bs) = do
    logits ← prefill_with_cache_and_prefix_reuse rt (scratch_id g.group_id i) b.token_ids g.lora_id
    free_sequence (scratch_id g.group_id i)
    rest ← expand g (i + 1) bs
    pure (candidates_from b.cum_logprob i (topk_last logits g.num_beams) ++ rest)

  -- The end of the group, if no beam goes on, enough have stopped, or the limit is reached.
  unfoldable pub conclude : BeamGroup Float → Result (BeamGroup Float)
  unfolding is_over finalize
  conclude g =
      let end = finalize floats g in
      if is_over g g.beams then (elim end.0 [ ok _ ↦ ok end.1 | err e ↦ err e ]) else ok g

  -- The rest of a step: the survivors of the sorted candidates, and the end of the group.
  unfoldable pub settle : BeamGroup Float → List (Candidate Float) → Result (BeamGroup Float)
  unfolding sort_candidates select conclude
  settle g candidates = elim (select g (sort_candidates floats [] candidates) [] g.finished) [
    | err e ↦ err e
    | ok (beams, finished) ↦ conclude (record g { beams = beams; finished = finished })
  ]

  unfoldable pub step : BeamGroup Float → Act (Cache rt) (BeamGroup Float)
  unfolding expand settle
  step g m =
      let next = (do candidates ← expand g 0 g.beams; (λ m'. (settle g candidates, m'))) m in
      if is_done g then (ok g, m) else next
