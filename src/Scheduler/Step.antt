-- ===== src/Scheduler/Step.antt =====
-- One iteration of src/wllm/engine/scheduler.py, and the loop to completion.
use w_llm.Base.{ℕ, zero, suc, Option, none, some, List, [], ◌∷◌, ◌++◌, if◌then◌else◌}
use w_llm.Base.Int.{ℤ, int_eq}
use w_llm.Base.Dict.{get}
use w_llm.Base.Outcome.{Act, ok, ◌>>=◌, ◌>>◌, pure}
use w_llm.Kv.Manager.{free_sequence}
use w_llm.Sequence.{SeqStatus, is_finished}
use w_llm.Runtime.{Runtime}
use w_llm.BeamSearch
use w_llm.BeamSearch.{BeamGroup, is_done}
use w_llm.Scheduler.{Scheduler, Seq, on_cache, seq_of, member, has_unfinished_requests}
use w_llm.Scheduler.Prefill.{step_prefill_work, try_swap_in, with_status}
use w_llm.Scheduler.Decode.{maybe_propose_draft, speculative_decode_one, decode_active}

-- [x for x in ids if x not in done]
unfoldable pub without : List ℤ → List ℤ → List ℤ
without done [] = []
without done (id ∷ ids) = let rest = without done ids in if member id done then rest else id ∷ rest

module _ {rt : Runtime} where
  open rt use {Float}

  -- Those that are not finished stay in `running`.
  unfoldable pub unfinished : Scheduler rt → List ℤ → List ℤ
  unfinished s [] = []
  unfinished s (id ∷ ids) =
      let rest = unfinished s ids in
      elim (get s.store id) [
        | none ↦ id ∷ rest
        | some q ↦ if is_finished q then rest else id ∷ rest
      ]

  abbrev pub draft_for : Scheduler rt → Seq rt → Option (List ℕ)
  draft_for s q = if s.config.enable_speculative_decoding then maybe_propose_draft s q else none

  -- The sequences verified by a draft, and the rest, which decode in a batch.
  unfoldable pub speculate : List ℤ → Act (Scheduler rt) (List ℤ × List ℤ)
  speculate [] s = (ok ([], []), s)
  speculate (id ∷ ids) s =
      (do
        q ← seq_of id
        λ s'. elim (draft_for s' q) [
          | some (t ∷ ts) ↦
              (do
                ok_draft ← speculative_decode_one id (t ∷ ts)
                r ← speculate ids
                pure ((if ok_draft then id ∷ r.0 else r.0), r.1))
                s'
          | _ ↦ (do r ← speculate ids; pure (r.0, id ∷ r.1)) s'
        ])
        s

  unfoldable pub decode_regular : List ℤ → Act (Scheduler rt) (List ℤ)
  decode_regular [] s = (ok [], s)
  decode_regular (id ∷ ids) s = decode_active (id ∷ ids) s

  unfoldable pub free_all : List ℤ → Act (Scheduler rt) (Unit {0})
  free_all [] = pure tt
  free_all (id ∷ ids) = do q ← seq_of id; on_cache (free_sequence q.seq_id); free_all ids

  unfoldable pub free_finished : Act (Scheduler rt) (Unit {0})
  unfolding free_all unfinished
  free_finished s =
      (do
        free_all (with_status s SeqStatus.finished s.running)
        (λ s'. (ok tt, record s' { running = unfinished s' s'.running })))
        s

  -- Each group advances by one token; the finished ones go to the drain queue. A group that raises
  -- leaves `beam_groups` as it was.
  unfoldable pub step_beams :
      List (BeamGroup Float)
      → List (BeamGroup Float)
      → List (BeamGroup Float)
      → Act (Scheduler rt) (List (BeamGroup Float))
  step_beams stepped active [] s = (ok active, s)
  step_beams stepped active (g ∷ gs) s =
      (do
        g' ← on_cache (BeamSearch.step rt g)
        λ s'.
            step_beams (stepped ++ g' ∷ []) (if is_done g' then active else active ++ g' ∷ []) gs (
              if is_done g'
              then record s' {
                beam_groups = stepped ++ g' ∷ gs;
                completed_beam_groups = s'.completed_beam_groups ++ g' ∷ [];
              }
              else record s' { beam_groups = stepped ++ g' ∷ gs }))
        s

  unfoldable pub step_beam_groups : Act (Scheduler rt) (Unit {0})
  unfolding step_beams
  step_beam_groups s =
      (do
        active ← step_beams [] [] s.beam_groups
        (λ s'. (ok tt, record s' { beam_groups = active })))
        s

  -- The sequences that got a token: completed prefills, verified drafts, the decoded batch.
  unfoldable pub step : Act (Scheduler rt) (List ℤ)
  unfolding without speculate decode_regular free_finished step_beam_groups
  step = do
    try_swap_in
    completed ← step_prefill_work
    active ← (λ s. (ok (without completed (with_status s SeqStatus.running s.running)), s))
    parts ← speculate active
    regular ← decode_regular parts.1
    free_finished
    step_beam_groups
    pure (completed ++ (parts.0 ++ regular))

  -- [s for s in updated if s.is_finished()]
  unfoldable pub finished_of : List ℤ → Act (Scheduler rt) (List (Seq rt))
  finished_of [] = pure []
  finished_of (id ∷ ids) = do
    q ← seq_of id
    rest ← finished_of ids
    if is_finished q then pure (q ∷ rest) else pure rest

  unfoldable pub run_to_completion : ℕ → Act (Scheduler rt) (List (Seq rt))
  unfolding step finished_of
  run_to_completion zero s = (ok [], s)
  run_to_completion (suc max_steps) s =
      let go =
        (do
          updated ← step
          done ← finished_of updated
          rest ← run_to_completion max_steps
          pure (done ++ rest))
          s in
      if has_unfinished_requests s then go else (ok [], s)
