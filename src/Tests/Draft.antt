-- ===== src/Tests/Draft.antt =====
-- A speculative step of src/wllm/engine/scheduler.py over the toy model, whose logits are the tokens of the chunk.
use w_llm.Base.{ℕ, ◌-◌, List, length, get_or}

-- A model that says the last token again.
abbrev again : List ℕ → ℕ
again history = get_or history (length history - 1) 0
