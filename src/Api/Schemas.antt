-- ===== src/Api/Schemas.antt =====
-- The requests and responses of src/wllm/api/schemas.py, as far as the completion handlers use them.
use w_llm.Base.{ℕ, Bool, Option, List}
use w_llm.Api.StopStrings.{Text}
use w_llm.Api.ToolCalls.{ToolCall}

-- stop: str | list[str] | None
pub data Stop : Type 0 where
  no_stop : Stop
  one_stop : Text → Stop
  stops : List Text → Stop

-- The fields of ChatCompletionRequest and CompletionRequest that the handlers read; the tools of a
-- completion are not looked at. `P` is what the prompt is made of: messages, or a text.
pub record Request (F J P : Type 0) : Type 0 where
  pub model : Text
  pub prompt : P
  pub max_tokens : ℕ
  pub temperature : F
  pub top_p : F
  pub top_k : ℕ
  pub min_p : F
  pub repetition_penalty : F
  pub stream : Bool
  pub stop : Stop
  pub guided_json : Option J
  pub tools : List J
  pub use_beam_search : Bool
  pub best_of : Option ℕ
  pub length_penalty : F

pub data Reason : Type 0 where
  stop_reason length_reason tool_calls_reason : Reason

pub record UsageInfo : Type 0 where
  pub prompt_tokens : ℕ
  pub completion_tokens : ℕ
  pub total_tokens : ℕ

pub record Response : Type 0 where
  pub model : Text
  pub content : Option Text
  pub tool_calls : Option (List ToolCall)
  pub finish_reason : Reason
  pub usage : UsageInfo

-- One event of a stream: its delta and, on the last one, the reason.
pub record Chunk : Type 0 where
  pub content : Option Text
  pub tool_calls : Option (List ToolCall)
  pub finish_reason : Option Reason
