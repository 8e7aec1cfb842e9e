-- ===== src/Scheduler/Decode/Accept.antt =====
-- A speculative step in src/wllm/engine/scheduler.py, from the verification to the rollback.
use w_llm.Base.{ℕ, suc, ◌+◌, ◌≤◌, ◌≡◌, ◌⊎◌, true, some, List, ◌++◌, take, min}
use w_llm.Base.Int.{ℤ, int_eq}
use w_llm.Base.Dict.{get}
use w_llm.Kv.Manager.{SequenceState}
use w_llm.Sequence.{is_finished}
use w_llm.Runtime.{Runtime}
use w_llm.Scheduler.{Scheduler, Seq}
use w_llm.Scheduler.Decode.Verify.{greedy}

module _ {rt : Runtime} where
  open rt use {Logits, guides, argmax_rows, logprob_at}

  -- After a verified draft, of which `n` tokens matched: the sequence has a prefix of the greedy
  -- continuation of n + 1 tokens more, all of it unless it ended. Its cached context, `old` before, has
  -- the token that was to be decoded, and the draft tokens that were kept.
  pub record Accepted (next : List ℕ → ℕ) (history : List ℕ) (n old : ℕ) (id : ℤ) (q : Seq rt)
      (s : Scheduler rt) : Type 0 where
    pub sequence : Seq rt
    pub kept : ℕ
    pub state : SequenceState
    pub stored : get s.store id ≡ some sequence
    pub cached : get s.cache.sequences q.seq_id ≡ some state
    pub within : kept ≤ suc n
    pub output :
        sequence.output_token_ids ≡ q.output_token_ids ++ take kept (greedy next history (suc n))
    pub all : (is_finished sequence ≡ true) ⊎ (kept ≡ suc n)
    pub context : state.context_len ≡ old + 1 + min kept n
