-- ===== src/Scheduler.antt =====
-- src/wllm/engine/scheduler.py: its state, its queues and the admission count. The queues hold ids, and
-- `store` holds the Sequence objects that Python's lists share.
pub mod Prefill
pub mod Cancel
pub mod Decode
pub mod Step
pub mod Preempt
pub mod Safe
use w_llm.Base.{
  ℕ, zero, suc, ◌+◌, ◌-◌, Bool, true, false, ◌&&◌, ◌||◌, not, Option, none, some, List, [], ◌∷◌,
  ◌++◌, length, ltb, if◌then◌else◌,
}
use w_llm.Base.Int.{ℤ, int_eq, int_beq}
use w_llm.Base.Dict.{Dict, get, put}
use w_llm.Base.Outcome.{Act, Result, ok, err, key_error, ◌>>=◌, ◌>>◌, pure}
use w_llm.Kv.Manager.{Manager, free_sequence}
use w_llm.Kv.Swap.{swap_out, discard_swapped, blocks_for}
use w_llm.Kv.Allocator.{num_free}
use w_llm.Sequence.{
  Sequence, SeqStatus, status_eq, num_prompt_tokens, total_len_estimate, append_token,
}
use w_llm.Runtime.{Runtime}
use w_llm.Model.{Cache}
use w_llm.BeamSearch.{BeamGroup}
use w_llm.GraphDecoder.{GraphDecoder}

pub record Config : Type 0 where
  pub max_prefill_tokens_per_step : Option ℕ
  pub enable_cpu_swap : Bool
  pub enable_speculative_decoding : Bool
  pub speculative_ngram_size : ℕ
  pub speculative_max_draft_len : ℕ

abbrev pub member : ℤ → List ℤ → Bool
member id [] = false
member id (x ∷ xs) = int_beq x id || member id xs

-- The list without the first occurrence.
abbrev pub remove_first : ℤ → List ℤ → List ℤ
remove_first id [] = []
remove_first id (x ∷ xs) = if int_beq x id then xs else x ∷ remove_first id xs

non_empty : {A : Type 0} → List A → Bool
non_empty [] = false
non_empty (x ∷ xs) = true

module _ {F G : Type 0} where
  -- Worst-case blocks that a running sequence may still take; Python's max(0, a - b) is a - b here.
  unfoldable pub still_to_come : ℕ → Sequence F G → ℕ
  still_to_come block_size q =
      blocks_for block_size (total_len_estimate q)
      - blocks_for block_size (num_prompt_tokens q + length q.output_token_ids)

  unfoldable pub pledged_blocks : Dict ℤ (Sequence F G) → ℕ → List ℤ → ℕ
  unfolding still_to_come
  pledged_blocks store block_size [] = 0
  pledged_blocks store block_size (id ∷ ids) =
      (elim (get store id) [ none ↦ 0 | some q ↦ still_to_come block_size q ])
      + pledged_blocks store block_size ids

module _ (rt : Runtime) where
  open rt use {Float, Guide, Logits, Rng, storage, guides, sample_last}

  abbrev pub Seq : Type 0
  Seq = Sequence Float Guide

  pub record Scheduler : Type 0 where
    pub config : Config
    pub cache : Cache rt
    pub rng : Rng
    pub store : Dict ℤ Seq
    pub waiting : List ℤ
    pub running : List ℤ
    pub swapped : List ℤ
    pub beam_groups : List (BeamGroup Float)
    pub completed_beam_groups : List (BeamGroup Float)
    pub graph_decoder : Option GraphDecoder

  -- Scheduler(...)
  abbrev pub new_scheduler : Config → Cache rt → Rng → Option GraphDecoder → Scheduler
  new_scheduler config cache rng graph_decoder = record {
    config = config;
    cache = cache;
    rng = rng;
    store = [];
    waiting = [];
    running = [];
    swapped = [];
    beam_groups = [];
    completed_beam_groups = [];
    graph_decoder = graph_decoder;
  }

module _ {rt : Runtime} where
  open rt use {Float, Guide, Logits, Rng, storage, guides, sample_last}

  abbrev pub on_cache : {A : Type 0} → Act (Cache rt) A → Act (Scheduler rt) A
  on_cache f s = ((f s.cache).0, record s { cache = (f s.cache).1 })

  -- The object with an id, read and written.
  abbrev pub seq_of : ℤ → Act (Scheduler rt) (Seq rt)
  seq_of id s = elim (get s.store id) [ none ↦ (err key_error, s) | some q ↦ (ok q, s) ]

  abbrev pub put_seq : ℤ → Seq rt → Act (Scheduler rt) (Unit {0})
  put_seq id q s = (ok tt, record s { store = put s.store id q })

  abbrev pub set_status : ℤ → SeqStatus → Act (Scheduler rt) (Unit {0})
  set_status id st = do q ← seq_of id; put_seq id (record q { status = st })

  unfoldable pub add_request : Seq rt → Scheduler rt → Scheduler rt
  add_request q s = record s {
    store = put s.store q.seq_id q;
    waiting = s.waiting ++ q.seq_id ∷ [];
  }

  unfoldable pub add_beam_request : BeamGroup Float → Scheduler rt → Scheduler rt
  add_beam_request g s = record s { beam_groups = s.beam_groups ++ g ∷ [] }

  unfoldable pub has_unfinished_requests : Scheduler rt → Bool
  unfolding non_empty
  has_unfinished_requests s =
      non_empty s.waiting
      || (non_empty s.running || (non_empty s.swapped || non_empty s.beam_groups))

  abbrev pub drop_running : ℤ → Act (Scheduler rt) (Unit {0})
  drop_running id s = (ok tt, record s { running = remove_first id s.running })

  abbrev pub drop_swapped : ℤ → Act (Scheduler rt) (Unit {0})
  drop_swapped id s = (ok tt, record s { swapped = remove_first id s.swapped })

  abbrev pub drop_waiting : ℤ → Act (Scheduler rt) (Unit {0})
  drop_waiting id s = (ok tt, record s { waiting = remove_first id s.waiting })

  unfoldable pub cancel : ℤ → Act (Scheduler rt) (Unit {0})
  cancel id s =
      (if member id s.running
          then (do on_cache (free_sequence id); drop_running id)
          else if member id s.swapped
          then (do on_cache (discard_swapped id); drop_swapped id)
          else if member id s.waiting
          then drop_waiting id
          else pure tt)
        s

  -- not (needed > num_free - pledged), where Python's difference may be negative.
  unfoldable pub fits : ℕ → Scheduler rt → Bool
  unfolding pledged_blocks
  fits needed s = not (
      ltb (num_free s.cache.allocator)
        (needed + pledged_blocks s.store s.cache.block_size s.running))

  -- One row of `sample`, and the token appended to the sequence.
  unfoldable pub sample_and_append : ℤ → Logits → Act (Scheduler rt) (Unit {0})
  sample_and_append id logits s =
      (do
        q ← seq_of id
        λ s'.
            let (token, logprob, rng) =
              sample_last s'.rng logits q.sampling_params q.output_token_ids q.guide in
            put_seq id (append_token guides q token logprob) (record s' { rng = rng }))
        s

  unfoldable pub swap_victim : ℤ → Act (Scheduler rt) (Unit {0})
  swap_victim id s =
      (do
        on_cache (swap_out storage id)
        set_status id SeqStatus.swapped
        (λ s'. (ok tt, record s' { swapped = id ∷ s'.swapped })))
        s

  unfoldable pub recompute_victim : ℤ → Act (Scheduler rt) (Unit {0})
  recompute_victim id s =
      (do
        on_cache (free_sequence id)
        q ← seq_of id
        put_seq id (record q { output_token_ids = []; status = SeqStatus.waiting })
        (λ s'. (ok tt, record s' { waiting = id ∷ s'.waiting })))
        s

  unfoldable pub preempt : ℤ → Act (Scheduler rt) (Unit {0})
  unfolding swap_victim recompute_victim
  preempt id s =
      (do drop_running id; if s.config.enable_cpu_swap then swap_victim id else recompute_victim id)
        s
