-- ===== src/Scheduler/Safe/Iteration.antt =====
-- A whole iteration of src/wllm/engine/scheduler.py, and the loop to completion, keep the scheduler sound.
use w_llm.Base.{
  ℕ, zero, suc, Bool, true, false, List, [], ◌∷◌, ◌++◌, inl, inr, if◌then◌else◌, Option-cases,
}
use w_llm.Base.Int.{ℤ, int_eq}
use w_llm.Base.Keeps.{Keeps-bind, Keeps-pure, Keeps-if, if-Keeps}
use w_llm.Base.Outcome.{ok}
use w_llm.Kv.Safe.Calls.{free_sequence-Safe}
use w_llm.Sequence.{SeqStatus, is_finished}
use w_llm.Runtime.{Runtime}
use w_llm.BeamSearch.{BeamGroup, is_done}
use w_llm.BeamSearch.Safe.{step-Safe}
use w_llm.Scheduler.{Scheduler, has_unfinished_requests}
use w_llm.Scheduler.Prefill.{with_status}
use w_llm.Scheduler.Step.{
  draft_for, speculate, decode_regular, free_all, free_finished, unfinished, step_beams,
  step_beam_groups, step, finished_of, run_to_completion, without,
}
use w_llm.Scheduler.Safe.{Written, Sound, KeepsSound, on_cache-Sound, seq_of-Sound, queues-Sound}
use w_llm.Scheduler.Safe.Admission.{step_prefill_work-Sound, try_swap_in-Sound}
use w_llm.Scheduler.Safe.Decoding.{speculative_decode_one-Sound, decode_active-Sound}

module _ {rt : Runtime} (w : Written rt) where
  open rt use {Float}

  speculate-Sound : (ids : List ℤ) → KeepsSound w (speculate ids)
  unfolding speculate
  speculate-Sound [] = record { at = λ s h. h }
  speculate-Sound (id ∷ ids) = Keeps-bind (seq_of-Sound w id) λ q. record {
    at = λ s h. elim (Option-cases (draft_for s q)) [
      | inl e ↦ rw e ((Keeps-bind (speculate-Sound ids) λ r. Keeps-pure (r.0, id ∷ r.1)).at s h)
      | inr ([], e) ↦
          rw e ((Keeps-bind (speculate-Sound ids) λ r. Keeps-pure (r.0, id ∷ r.1)).at s h)
      | inr (t ∷ ts, e) ↦ rw e (
          (Keeps-bind (speculative_decode_one-Sound w id (t ∷ ts)) λ ok_draft.
              Keeps-bind (speculate-Sound ids)
                λ r. Keeps-pure ((if ok_draft then id ∷ r.0 else r.0), r.1)).at
            s h)
    ];
  }

  decode_regular-Sound : (ids : List ℤ) → KeepsSound w (decode_regular ids)
  unfolding decode_regular
  decode_regular-Sound [] = record { at = λ s h. h }
  decode_regular-Sound (id ∷ ids) = decode_active-Sound w (id ∷ ids)

  free_all-Sound : (ids : List ℤ) → KeepsSound w (free_all ids)
  unfolding free_all
  free_all-Sound [] = Keeps-pure tt
  free_all-Sound (id ∷ ids) =
      Keeps-bind (seq_of-Sound w id)
        λ q. Keeps-bind (on_cache-Sound w (free_sequence-Safe q.seq_id)) λ _. free_all-Sound ids

  drop_finished-Sound :
      KeepsSound w {A = Unit {0}} (λ s. (ok tt, record s { running = unfinished s s.running }))
  drop_finished-Sound = record { at = λ s h. queues-Sound w s _ _ _ h }

  free_finished-Sound : KeepsSound w free_finished
  unfolding free_finished
  free_finished-Sound = record {
    at = λ s h.
        (Keeps-bind (free_all-Sound (with_status s SeqStatus.finished s.running))
            λ _. drop_finished-Sound).at
          s h;
  }

  -- The groups of the scheduler play no part.
  groups-Sound :
      (s : Scheduler rt) (active completed : List (BeamGroup Float))
      → Sound w s
      → Sound w (record s { beam_groups = active; completed_beam_groups = completed })
  groups-Sound s active completed h = record { cache = h.cache; stored = h.stored }

  if-Sound :
      (b : Bool) (s s' : Scheduler rt) → Sound w s → Sound w s' → Sound w (if b then s else s')
  if-Sound true s s' h h' = h
  if-Sound false s s' h h' = h'

  step_beams-Sound :
      (stepped active gs : List (BeamGroup Float)) → KeepsSound w (step_beams stepped active gs)
  unfolding step_beams
  step_beams-Sound stepped active [] = record { at = λ s h. h }
  step_beams-Sound stepped active (g ∷ gs) = Keeps-bind (on_cache-Sound w (step-Safe rt g)) λ g'.
      record {
        at = λ s h.
            (step_beams-Sound (stepped ++ g' ∷ [])
                (if is_done g' then active else active ++ g' ∷ []) gs).at
              _ (if-Sound (is_done g') _ _ (groups-Sound s _ _ h) (groups-Sound s _ _ h));
      }

  set_groups-Sound :
      (active : List (BeamGroup Float))
      → KeepsSound w {A = Unit {0}} (λ s. (ok tt, record s { beam_groups = active }))
  set_groups-Sound active = record { at = λ s h. groups-Sound s _ _ h }

  step_beam_groups-Sound : KeepsSound w step_beam_groups
  unfolding step_beam_groups
  step_beam_groups-Sound = record {
    at = λ s h.
        (Keeps-bind (step_beams-Sound [] [] s.beam_groups) λ active. set_groups-Sound active).at s
          h;
  }

  active-Sound :
      (completed : List ℤ)
      → KeepsSound w (λ s. (ok (without completed (with_status s SeqStatus.running s.running)), s))
  active-Sound completed = record { at = λ s h. h }

  pub step-Sound : KeepsSound w step
  unfolding step
  step-Sound = Keeps-bind (try_swap_in-Sound w) λ _.
      Keeps-bind (step_prefill_work-Sound w) λ completed.
        Keeps-bind (active-Sound completed) λ active. Keeps-bind (speculate-Sound active) λ parts.
          Keeps-bind (decode_regular-Sound parts.1) λ regular. Keeps-bind free_finished-Sound λ _.
            Keeps-bind step_beam_groups-Sound λ _. Keeps-pure (completed ++ (parts.0 ++ regular))

  finished_of-Sound : (ids : List ℤ) → KeepsSound w (finished_of ids)
  unfolding finished_of
  finished_of-Sound [] = Keeps-pure []
  finished_of-Sound (id ∷ ids) = Keeps-bind (seq_of-Sound w id) λ q.
      Keeps-bind (finished_of-Sound ids)
        λ rest. Keeps-if (is_finished q) _ _ (Keeps-pure (q ∷ rest)) (Keeps-pure rest)

  pub run_to_completion-Sound : (max_steps : ℕ) → KeepsSound w (run_to_completion max_steps)
  unfolding run_to_completion
  run_to_completion-Sound zero = record { at = λ s h. h }
  run_to_completion-Sound (suc max_steps) = record {
    at = λ s h.
        if-Keeps (Sound w) (has_unfinished_requests s) _ (ok [], s)
          ((Keeps-bind step-Sound λ updated. Keeps-bind (finished_of-Sound updated) λ done.
              Keeps-bind (run_to_completion-Sound max_steps) λ rest. Keeps-pure (done ++ rest)).at
            s h)
          h;
  }
