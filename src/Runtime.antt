-- ===== src/Runtime.antt =====
-- What wLLM uses and does not implement in Python: PyTorch's tensors and random numbers, floats, the
-- layers' arithmetic, Python's hash, and the automaton of a guided sequence.
use w_llm.Base.{ℕ, Bool, Option, List}
use w_llm.Base.Int.{ℤ}
use w_llm.Kv.Storage.{Storage}
use w_llm.Sequence.{Guides, SamplingParams}

-- Python's floats, as far as the program computes with them outside of tensors.
pub record Floats (F : Type 0) : Type 0 where
  pub zero_f : F
  pub one_f : F
  -- a == b, a < b
  pub eq_f : F → F → Bool
  pub lt_f : F → F → Bool
  pub add_f : F → F → F
  pub div_f : F → F → F
  -- n ** p, for an int n
  pub pow_f : ℕ → F → F

-- The inputs of one forward pass over a chunk of a sequence: the tokens, their first position, the
-- block table gathered as the prefix (empty when nothing is cached), and the slots to write to.
pub record Chunk : Type 0 where
  pub tokens : List ℕ
  pub start : ℕ
  pub prefix_blocks : List ℕ
  pub positions : List (ℕ × ℕ)
  pub lora : Option ℕ

-- One row of a batched decode step.
pub record Row : Type 0 where
  pub token : ℕ
  pub position : ℕ
  pub slot : ℕ × ℕ
  pub block_table : List ℕ
  pub context_len : ℕ
  pub lora : Option ℕ

-- The static buffers of a captured CUDA graph, one row for each sequence of the batch.
pub record Buffers : Type 0 where
  pub token_ids : List ℕ
  pub position_ids : List ℕ
  pub block_table : List (List ℕ)
  pub context_len : List ℕ
  pub write_idx : List ℕ

pub record Runtime : Type 1 where
  pub Tensor : Type 0
  pub Copy : Type 0
  pub Slot : Type 0
  pub Float : Type 0
  pub Guide : Type 0
  pub Logits : Type 0
  pub Rng : Type 0
  pub storage : Storage Tensor Copy Slot
  pub floats : Floats Float
  pub guides : Guides Guide
  pub hash : Option ℤ → List ℕ → ℤ
  -- The layers: they write K and V at the given slots and return logits, one row for each token.
  pub run_chunk : List Tensor → List Tensor → Chunk → List Tensor × List Tensor × Logits
  pub run_batch : List Tensor → List Tensor → List Row → List Tensor × List Tensor × List Logits
  -- decode_step_graphable: the layers of a decode step on static buffers.
  pub run_graph : List Tensor → List Tensor → Buffers → List Tensor × List Tensor × List Logits
  -- One row of `sample`, on the last position; the mask is that of the guide's allowed tokens.
  pub sample_last : Rng → Logits → SamplingParams Float → List ℕ → Option Guide → ℕ × Float × Rng
  -- logits.argmax(-1).tolist(), and the log-probability of a token at a row.
  pub argmax_rows : Logits → List ℕ
  pub logprob_at : Logits → ℕ → ℕ → Float
  -- log_softmax of the last row, then topk(k): log-probabilities and tokens, best first
  pub topk_last : Logits → ℕ → List (Float × ℕ)
