-- ===== src/Sequence.antt =====
-- src/wllm/engine/sequence.py, and SamplingParams of wllm/engine/sampling.py. `F` stands for Python's
-- floats and `G` for the guide of a constrained sequence (src/wllm/engine/guided_decoding.py wraps the
-- library outlines_core, whose automaton is the parameter `Guides`).
pub mod Append
use w_llm.Base.{
  ℕ, suc, ◌+◌, Bool, true, false, ◌&&◌, ◌||◌, Option, none, some, List, [], ◌∷◌, ◌++◌, length, elem,
  ◌==◌, leb, if◌then◌else◌,
}
use w_llm.Base.Int.{ℤ}
use mathlib.Core.Option

pub data SeqStatus : Type 0 where
  waiting prefilling running swapped finished : SeqStatus

abbrev pub status_eq : SeqStatus → SeqStatus → Bool
status_eq SeqStatus.waiting SeqStatus.waiting = true
status_eq SeqStatus.prefilling SeqStatus.prefilling = true
status_eq SeqStatus.running SeqStatus.running = true
status_eq SeqStatus.swapped SeqStatus.swapped = true
status_eq SeqStatus.finished SeqStatus.finished = true
status_eq _ _ = false

pub record SamplingParams (F : Type 0) : Type 0 where
  pub temperature : F
  pub top_k : ℕ
  pub top_p : F
  pub min_p : F
  pub repetition_penalty : F
  pub seed : Option ℕ

pub record Guides (G : Type 0) : Type 0 where
  pub advance : G → ℕ → G
  pub is_done : G → Bool

pub record Sequence (F G : Type 0) : Type 0 where
  pub seq_id : ℤ
  pub prompt_token_ids : List ℕ
  pub max_new_tokens : ℕ
  pub eos_token_id : Option ℕ
  pub stop_token_ids : List ℕ
  pub sampling_params : SamplingParams F
  pub output_token_ids : List ℕ
  pub logprobs : List F
  pub status : SeqStatus
  pub guide : Option G
  pub lora_id : Option ℕ

-- The last of a list of tokens; Python raises on an empty one.
unfoldable pub last_of : List ℕ → Option ℕ
last_of [] = none
last_of (x ∷ []) = some x
last_of (x ∷ y ∷ xs) = last_of (y ∷ xs)

module _ {F G : Type 0} where
  abbrev pub num_prompt_tokens : Sequence F G → ℕ
  num_prompt_tokens s = length s.prompt_token_ids

  abbrev pub total_len_estimate : Sequence F G → ℕ
  total_len_estimate s = num_prompt_tokens s + s.max_new_tokens

  unfoldable pub last_token_id : Sequence F G → Option ℕ
  unfolding last_of
  last_token_id s = elim s.output_token_ids [
    | [] ↦ last_of s.prompt_token_ids
    | x ∷ xs ↦ last_of (x ∷ xs)
  ]

  abbrev pub is_finished : Sequence F G → Bool
  is_finished s = status_eq s.status SeqStatus.finished

  -- The test of append_token, on the sequence that already has the token.
  abbrev pub ends : Guides G → Sequence F G → ℕ → Bool
  ends gs s token_id =
      (elim s.eos_token_id [ none ↦ false | some eos ↦ token_id == eos ])
      || (elem token_id s.stop_token_ids
          || ((elim s.guide [ none ↦ false | some g ↦ gs.is_done g ])
              || leb s.max_new_tokens (length s.output_token_ids)))

  abbrev pub with_token : Guides G → Sequence F G → ℕ → F → Sequence F G
  with_token gs s token_id logprob = record s {
    output_token_ids = s.output_token_ids ++ token_id ∷ [];
    logprobs = s.logprobs ++ logprob ∷ [];
    guide = Option.map (λ g. gs.advance g token_id) s.guide;
  }

  unfoldable pub append_token : Guides G → Sequence F G → ℕ → F → Sequence F G
  append_token gs s token_id logprob =
      let s' = with_token gs s token_id logprob in
      if ends gs s' token_id then record s' { status = SeqStatus.finished } else s'
