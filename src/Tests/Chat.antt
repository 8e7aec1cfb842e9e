-- ===== src/Tests/Chat.antt =====
-- The completion handlers of src/wllm/api/server.py over a server whose engine answers with two deltas.
use w_llm.Base.{◌⊎◌, ℕ, ◌≡◌, refl, true, false, Option, none, some, [], ◌∷◌, ◌++◌, ◌==◌}
use w_llm.Base.Text.{codes}
use w_llm.Api.StopStrings.{Text}
use w_llm.Base.Outcome.{ok, err, Error, runtime_error}
use w_llm.Api.ToolCalls.{Json, parse_tool_calls}
use w_llm.Api.Schemas.{Request, Response, length_reason, no_stop}
use w_llm.Api.Server.{
  response, raised, event_stream, Server, text_chunk, chat_completions, guide_of, outcome_of,
}
use w_llm.Api.Server.Chat.{chat_completions-length}

-- A text is its own payload, named by itself.
abbrev toy_json : Json Text
toy_json = record {
  loads = λ t. some t;
  dumps = λ t. t;
  name_of = λ t. some t;
  arguments_of = λ t. t;
  is_space = λ c. c == 32;
  call_id = λ n. n ∷ [];
}

abbrev toy_server : Server ℕ Text ℕ Text
toy_server = record {
  json = toy_json;
  ready = true;
  model_id = codes "base";
  adapters = codes "tuned" ∷ [];
  prompt_ids = λ tools p. p;
  encode = λ t. t;
  build = λ schema. ok 0;
  generate = λ call. (codes "Hi" ∷ codes " there" ∷ [], none);
  beam_search = λ call. ok (codes "Hi", length_reason);
}

abbrev ask : Request ℕ Text Text
ask = record {
  model = codes "tuned";
  prompt = codes "Hello";
  max_tokens = 16;
  temperature = 1;
  top_p = 1;
  top_k = 0;
  min_p = 0;
  repetition_penalty = 1;
  stream = false;
  stop = no_stop;
  guided_json = none;
  tools = [];
  use_beam_search = false;
  best_of = none;
  length_penalty = 1;
}

abbrev toy_ids : ℕ → Text
toy_ids n = n ∷ []

-- A response, the same in events, and an engine that fails after its first delta.
answer_run :
    chat_completions toy_server toy_ids ask
    ≡ response (record {
      model = codes "tuned";
      content = some (codes "Hi there");
      tool_calls = none;
      finish_reason = length_reason;
      usage = record { prompt_tokens = 5; completion_tokens = 8; total_tokens = 13 };
    })
unfolding chat_completions
answer_run = refl

failing_run :
    chat_completions
      (record toy_server { generate = λ call. (codes "Hi" ∷ [], some runtime_error) })
      toy_ids
      (record ask { stream = true })
    ≡ event_stream (text_chunk (codes "Hi") ∷ []) (some runtime_error)
unfolding chat_completions
failing_run = refl

chat_completions-length_example :
    ((e : Error) × (guide_of toy_server ask ≡ err e)
      × (chat_completions toy_server toy_ids ask ≡ raised e))
    ⊎ ((guide : Option ℕ) × (guide_of toy_server ask ≡ ok guide)
        × (((e : Error) × ((outcome_of toy_server ask
                  (codes "Hello")
                  (some (codes "tuned"))
                  guide).1
                ≡ some e)
              × (chat_completions toy_server toy_ids ask ≡ raised e))
            ⊎ ((r : Response) × (chat_completions toy_server toy_ids ask ≡ response r)
                × (r.finish_reason ≡ length_reason))))
chat_completions-length_example =
    chat_completions-length toy_server toy_ids ask (some (codes "tuned")) refl refl refl refl refl
      refl

-- A block between two texts is one call; what stands before it is kept without its white space.
parse_run : parse_tool_calls toy_json (codes "Sure. <tool_call> f </tool_call> Bye") ≡ (
  some (codes "Sure."),
  some (record { id = codes "call_" ++ 0 ∷ []; name = codes "f"; arguments = codes "f" } ∷ []),
)
unfolding parse_tool_calls
parse_run = refl
