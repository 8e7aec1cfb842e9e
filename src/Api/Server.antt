-- ===== src/Api/Server.antt =====
-- The completion handlers of src/wllm/api/server.py. The engine's calls are parameters: what a
-- generator yields before it ends or raises, and what a beam search returns or raises.
pub mod Chat
use w_llm.Base.{
  ℕ, ◌+◌, Bool, true, false, Option, none, some, List, [], ◌∷◌, ◌++◌, map, length, list_beq, ◌||◌,
  ◌==◌, if◌then◌else◌,
}
use w_llm.Base.Outcome.{Result, ok, err, Error}
use w_llm.Base.Text.{codes}
use w_llm.Sequence.{SamplingParams}
use w_llm.Api.StopStrings.{Text, Outcome, filter}
use w_llm.Api.StopStrings.Prefix.{join}
use w_llm.Api.ToolCalls.{Json, ToolCall, parse_tool_calls}
use w_llm.Api.Schemas.{
  Stop, no_stop, one_stop, stops, Request, Reason, stop_reason, length_reason, tool_calls_reason,
  UsageInfo, Response, Chunk,
}

abbrev pub normalize_stop : Stop → List Text
normalize_stop no_stop = []
normalize_stop (one_stop s) = s ∷ []
normalize_stop (stops ss) = ss

-- The arguments of engine.generate and of engine.generate_beam_search.
pub record GenerateCall (F G : Type 0) : Type 0 where
  pub prompt_ids : List ℕ
  pub max_new_tokens : ℕ
  pub sampling_params : SamplingParams F
  pub guide : Option G
  pub lora_id : Option Text

pub record BeamCall (F : Type 0) : Type 0 where
  pub prompt_ids : List ℕ
  pub max_new_tokens : ℕ
  pub num_beams : ℕ
  pub length_penalty : F
  pub lora_id : Option Text

-- A handler's answer: an HTTPException with its status, another exception that it lets through, a response,
-- or the events of a stream, with the exception that cuts it off.
pub data Answer : Type 0 where
  http_error : ℕ → Answer
  raised : Error → Answer
  response : Response → Answer
  event_stream : List Chunk → Option Error → Answer

-- The engine and the tokenizer; `ready` is whether the lifespan has set the engine.
pub record Server (F J G P : Type 0) : Type 0 where
  pub json : Json J
  pub ready : Bool
  pub model_id : Text
  pub adapters : List Text
  pub prompt_ids : List J → P → List ℕ
  pub encode : Text → List ℕ
  -- JSONSchemaGuide raises for a schema that it cannot compile.
  pub build : J → Result G
  -- the deltas, and the exception that ends them
  pub generate : GenerateCall F G → List Text × Option Error
  pub beam_search : BeamCall F → Result (Text × Reason)

abbrev pub is_some : {A : Type 0} → Option A → Bool
is_some none = false
is_some (some a) = true

abbrev pub given_any : {A : Type 0} → List A → Bool
given_any [] = false
given_any (a ∷ rest) = true

abbrev pub listed : Text → List Text → Bool
listed name [] = false
listed name (n ∷ ns) = list_beq n name || listed name ns

module _ {F J P : Type 0} where
  -- The seed of the request is not passed on.
  abbrev pub sampling_params_from : Request F J P → SamplingParams F
  sampling_params_from req = record {
    temperature = req.temperature;
    top_k = req.top_k;
    top_p = req.top_p;
    min_p = req.min_p;
    repetition_penalty = req.repetition_penalty;
    seed = none;
  }

  -- Whether _reject_unsupported_beam_search_combo raises its HTTPException.
  abbrev pub unsupported_combo : Request F J P → Bool
  unsupported_combo req = req.stream || (is_some req.guided_json || given_any req.tools)

abbrev pub beams_of : Option ℕ → ℕ
beams_of none = 4
beams_of (some n) = if n == 0 then 4 else n

abbrev pub usage_of : List ℕ → List ℕ → UsageInfo
usage_of prompt completion = record {
  prompt_tokens = length prompt;
  completion_tokens = length completion;
  total_tokens = length prompt + length completion;
}

-- "stop" if filtered.stopped_early else "length"
abbrev pub reason_of : Outcome → Reason
reason_of o = if o.stopped_early then stop_reason else length_reason

abbrev pub text_chunk : Text → Chunk
text_chunk delta = record { content = some delta; tool_calls = none; finish_reason = none }

abbrev pub last_chunk : Option (List ToolCall) → Reason → Chunk
last_chunk calls reason = record { content = none; tool_calls = calls; finish_reason = some reason }

module _ {J : Type 0} (json : Json J) where
  -- The last event of a stream: what the tool calls of the whole text make of it.
  unfoldable pub final_chunk : Outcome → Chunk
  unfolding parse_tool_calls
  final_chunk o =
      if o.stopped_inclusive
      then (elim (parse_tool_calls json (join o.yielded)).1 [
        | some calls ↦ last_chunk (some calls) tool_calls_reason
        | none ↦ last_chunk none (reason_of o)
      ])
      else last_chunk none (reason_of o)

  -- What a stream sends that ends, or that an exception cuts off.
  unfoldable pub stream_of : Outcome → Option Error → Answer
  unfolding final_chunk
  stream_of o none = event_stream (map text_chunk o.yielded ++ final_chunk o ∷ []) none
  stream_of o (some e) = event_stream (map text_chunk o.yielded) (some e)

  -- content, tool_calls and finish_reason of a response.
  unfoldable pub message_of : Outcome → Option Text × Option (List ToolCall) × Reason
  unfolding parse_tool_calls
  message_of o =
      let text = join o.yielded in
      if o.stopped_inclusive
      then (let (content, tool_calls) = parse_tool_calls json text in
          elim tool_calls [
            | some calls ↦ (content, some calls, tool_calls_reason)
            | none ↦ (some text, none, reason_of o)
          ])
      else (some text, none, reason_of o)

  unfoldable pub response_of : Text → List ℕ → (Text → List ℕ) → Outcome → Option Error → Answer
  unfolding message_of
  response_of model prompt encode o (some e) = raised e
  response_of model prompt encode o none =
      let (content, tool_calls, reason) = message_of o in
      response (record {
        model = model;
        content = content;
        tool_calls = tool_calls;
        finish_reason = reason;
        usage = usage_of prompt (encode (join o.yielded));
      })

-- The same for a completion, whose last event has an empty text.
unfoldable pub plain_stream_of : Outcome → Option Error → Answer
plain_stream_of o none =
    event_stream
      (map text_chunk o.yielded
        ++ record { content = some []; tool_calls = none; finish_reason = some (reason_of o) } ∷ [])
      none
plain_stream_of o (some e) = event_stream (map text_chunk o.yielded) (some e)

unfoldable pub plain_response_of : Text → List ℕ → (Text → List ℕ) → Outcome → Option Error → Answer
plain_response_of model prompt encode o (some e) = raised e
plain_response_of model prompt encode o none = response (record {
  model = model;
  content = some (join o.yielded);
  tool_calls = none;
  finish_reason = reason_of o;
  usage = usage_of prompt (encode (join o.yielded));
})

-- _resolve_lora_id: the outer none is the status 404.
abbrev pub resolve_lora_id : Text → Text → List Text → Option (Option Text)
resolve_lora_id requested_model model_id adapters =
    if list_beq requested_model model_id
    then some none
    else if listed requested_model adapters
    then some (some requested_model)
    else none

module _ {F J G P : Type 0} (server : Server F J G P) where
  open server use {
    json, ready, model_id, adapters, prompt_ids, encode, build, generate, beam_search,
  }

  abbrev pub beam_answer : Request F J P → List ℕ → Option Text → Answer
  beam_answer req prompt lora_id =
      elim (beam_search (record {
        prompt_ids = prompt;
        max_new_tokens = req.max_tokens;
        num_beams = beams_of req.best_of;
        length_penalty = req.length_penalty;
        lora_id = lora_id;
      })) [
        | err e ↦ raised e
        | ok found ↦ response (record {
          model = req.model;
          content = some found.0;
          tool_calls = none;
          finish_reason = found.1;
          usage = usage_of prompt (encode found.0);
        })
      ]

  -- _build_guide
  abbrev pub guide_of : Request F J P → Result (Option G)
  guide_of req = elim req.guided_json [
    | none ↦ ok none
    | some schema ↦ elim (build schema) [ err e ↦ err e | ok g ↦ ok (some g) ]
  ]

  -- What the filter makes of the engine's deltas, and the exception that it lets through; a filter that
  -- stopped early has closed the generator.
  abbrev pub outcome_of : Request F J P → List ℕ → Option Text → Option G → Outcome × Option Error
  outcome_of req prompt lora_id guide =
      let generated = generate (record {
        prompt_ids = prompt;
        max_new_tokens = req.max_tokens;
        sampling_params = sampling_params_from req;
        guide = guide;
        lora_id = lora_id;
      }) in
      let o =
        filter (normalize_stop req.stop)
          (if given_any req.tools then codes "</tool_call>" ∷ [] else []) generated.0 in
      (o, if o.stopped_early then none else generated.1)

  -- `uuids` are the ids that uuid.uuid4 gives to the tool calls of this request.
  unfoldable pub chat_completions : (ℕ → Text) → Request F J P → Answer
  unfolding stream_of response_of filter
  chat_completions uuids req =
      let prompt = prompt_ids req.tools req.prompt in
      let drawn = record json { call_id = uuids } in
      if ready
      then (elim (resolve_lora_id req.model model_id adapters) [
        | none ↦ http_error 404
        | some lora_id ↦
            if req.use_beam_search
            then (if unsupported_combo req then http_error 400 else beam_answer req prompt lora_id)
            else (elim (guide_of req) [
              | err e ↦ raised e
              | ok guide ↦
                  let (o, failure) = outcome_of req prompt lora_id guide in
                  if req.stream
                  then stream_of drawn o failure
                  else response_of drawn req.model prompt encode o failure
            ])
      ])
      else http_error 503

  -- completions: the prompt is a text, and no tool calls are looked for.
  unfoldable pub completions : (P → Text) → Request F J P → Answer
  unfolding filter plain_stream_of plain_response_of
  completions prompt_text req =
      let plain = record req { tools = [] } in
      let prompt = encode (prompt_text req.prompt) in
      if ready
      then (elim (resolve_lora_id req.model model_id adapters) [
        | none ↦ http_error 404
        | some lora_id ↦
            if req.use_beam_search
            then (if unsupported_combo plain
                then http_error 400
                else beam_answer req prompt lora_id)
            else (elim (guide_of plain) [
              | err e ↦ raised e
              | ok guide ↦
                  let (o, failure) = outcome_of plain prompt lora_id guide in
                  if req.stream
                  then plain_stream_of o failure
                  else plain_response_of req.model prompt encode o failure
            ])
      ])
      else http_error 503
