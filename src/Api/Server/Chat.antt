-- ===== src/Api/Server/Chat.antt =====
-- The reason that the chat handler of src/wllm/api/server.py gives for the end of a text.
use w_llm.Base.{
  ℕ, ◌≡◌, refl, ◌⊎◌, inl, inr, true, false, Option, some, Option-cases, List, [], ◌∷◌, ◌++◌,
  if◌then◌else◌,
}
use w_llm.Base.Outcome.{ok, err, Error, Result-cases}
use w_llm.Base.Text.{codes}
use w_llm.Api.StopStrings.{Text, Outcome, run, filter}
use w_llm.Api.StopStrings.Prefix.{join}
use w_llm.Api.ToolCalls.{Json}
use w_llm.Api.Schemas.{Request, Stop, length_reason, Response, no_stop}
use w_llm.Api.Server.{
  response, raised, Server, given_any, message_of, usage_of, response_of, resolve_lora_id,
  outcome_of, guide_of, chat_completions, normalize_stop,
}

-- Without stop strings, nothing ends a filter early.
run-never :
    (seen : Text) (deltas : List Text)
    → ((run [] [] seen deltas).stopped_early ≡ false)
      × ((run [] [] seen deltas).stopped_inclusive ≡ false)
unfolding run
run-never seen [] = (refl, refl)
run-never seen (d ∷ ds) = run-never (seen ++ d) ds

filter-never :
    {J : Type 0} (stop : Stop) (tools : List J) (deltas : List Text)
    → stop ≡ no_stop
    → tools ≡ []
    → let o =
        filter
          (normalize_stop stop)
          (if given_any tools then codes "</tool_call>" ∷ [] else [])
          deltas in
      (o.stopped_early ≡ false) × (o.stopped_inclusive ≡ false)
unfolding filter
filter-never stop tools deltas e h = rw e (rw h (run-never [] deltas))

-- A text that nothing ended early.
message_of-length :
    {J : Type 0} (json : Json J) (o : Outcome)
    → (o.stopped_early ≡ false) × (o.stopped_inclusive ≡ false)
    → (message_of json o).2 ≡ length_reason
unfolding message_of
message_of-length json o (early, inclusive) = rw (inclusive, message_of) (rw early refl)

module _ {F J G P : Type 0} (server : Server F J G P) where
  open server use {ready, model_id, adapters, prompt_ids}

  -- Once the engine is there, a request for a known model without streaming, stop strings, tools and
  -- beams: if its guide cannot be built, or the engine fails, that exception is raised; otherwise it is
  -- answered, and with the reason "length", whatever ended the text.
  pub chat_completions-length :
      (uuids : ℕ → Text) (req : Request F J P) (lora_id : Option Text)
      → ready ≡ true
      → resolve_lora_id req.model model_id adapters ≡ some lora_id
      → req.use_beam_search ≡ false
      → req.stream ≡ false
      → req.stop ≡ no_stop
      → req.tools ≡ []
      → ((e : Error) × (guide_of server req ≡ err e)
          × (chat_completions server uuids req ≡ raised e))
        ⊎ ((guide : Option G) × (guide_of server req ≡ ok guide)
            × (((e : Error) × ((outcome_of server req
                      (prompt_ids req.tools req.prompt)
                      lora_id
                      guide).1
                    ≡ some e)
                  × (chat_completions server uuids req ≡ raised e))
                ⊎ ((r : Response) × (chat_completions server uuids req ≡ response r)
                    × (r.finish_reason ≡ length_reason))))
  unfolding chat_completions response_of
  chat_completions-length uuids req lora_id up found plain whole no_stops no_tools =
      let prompt = prompt_ids req.tools req.prompt in
      elim (Result-cases (guide_of server req)) [
        | inr (e, fails) ↦ inl (e, fails, rw up (rw found (rw plain (rw fails refl))))
        | inl (guide, built) ↦
            let out = outcome_of server req prompt lora_id guide in
            let message = message_of (record server.json { call_id = uuids }) out.0 in
            let answered : Response = record {
              model = req.model;
              content = message.0;
              tool_calls = message.1;
              finish_reason = message.2;
              usage = usage_of prompt (server.encode (join out.0.yielded));
            } in
            elim (Option-cases out.1) [
              | inr (e, fails) ↦ inr (
                guide,
                built,
                inl (
                  e,
                  fails,
                  rw up (rw found (rw plain (rw built (rw whole (rw (fails, response_of) refl))))),
                ),
              )
              | inl fine ↦ inr (
                guide,
                built,
                inr (
                  answered,
                  rw up (rw found (rw plain (rw built (rw whole (rw (fine, response_of) refl))))),
                  message_of-length (record server.json { call_id = uuids }) out.0
                      (filter-never req.stop req.tools _ no_stops no_tools),
                ),
              )
            ]
      ]
