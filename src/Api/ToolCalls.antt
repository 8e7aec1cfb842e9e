-- ===== src/Api/ToolCalls.antt =====
-- parse_tool_calls of src/wllm/api/tool_calls.py. Python's json and uuid, and which characters \s
-- matches, are parameters.
pub mod Matches
use w_llm.Base.{
  ℕ, zero, suc, ◌+◌, Bool, Option, none, some, List, [], ◌∷◌, ◌++◌, length, take, drop,
  if◌then◌else◌,
}
use w_llm.Base.Text.{codes}
use w_llm.Api.StopStrings.{Text, find}

-- `name_of` is payload["name"], or none where that raises KeyError or TypeError; `arguments_of` is
-- payload.get("arguments", {}).
pub record Json (J : Type 0) : Type 0 where
  pub loads : Text → Option J
  pub dumps : J → Text
  pub name_of : J → Option Text
  pub arguments_of : J → J
  pub is_space : ℕ → Bool
  pub call_id : ℕ → Text

-- ToolCall with its FunctionCall.
pub record ToolCall : Type 0 where
  pub id : Text
  pub name : Text
  pub arguments : Text

abbrev pub open_tag : Text
open_tag = codes "<tool_call>"

abbrev pub close_tag : Text
close_tag = codes "</tool_call>"

module _ {J : Type 0} (json : Json J) where
  open json use {loads, dumps, name_of, arguments_of, is_space, call_id}

  abbrev pub strip_left : Text → Text
  strip_left [] = []
  strip_left (c ∷ t) = let rest = strip_left t in if is_space c then rest else c ∷ t

  -- The text without white space at its end; `kept` is what comes before.
  abbrev pub strip_right : Text → Text
  strip_right [] = []
  strip_right (c ∷ t) = elim (strip_right t) [
    | [] ↦ if is_space c then [] else c ∷ []
    | d ∷ rest ↦ c ∷ d ∷ rest
  ]

  abbrev pub strip : Text → Text
  strip t = strip_right (strip_left t)

  -- _TOOL_CALL_RE.finditer: the start and the group of each match; each match is shorter than what is
  -- left of the text, so its length is enough fuel.
  unfoldable pub matches_from : ℕ → ℕ → Text → List (ℕ × Text)
  unfolding find
  matches_from zero start t = []
  matches_from (suc fuel) start t = elim (find open_tag t) [
    | none ↦ []
    | some i ↦
        let inside = drop (i + length open_tag) t in
        elim (find close_tag inside) [
          | none ↦ []
          | some j ↦
              (start + i, strip (take j inside))
              ∷ matches_from fuel (start + i + length open_tag + j + length close_tag)
                  (drop (j + length close_tag) inside)
        ]
  ]

  abbrev pub matches : Text → List (ℕ × Text)
  matches t = matches_from (length t) 0 t

  -- The calls of the blocks that can be read, in order; a malformed block is skipped.
  unfoldable pub read_calls : ℕ → List (ℕ × Text) → List ToolCall
  read_calls n [] = []
  read_calls n ((start, group) ∷ ms) = elim (loads group) [
    | none ↦ read_calls n ms
    | some payload ↦ elim (name_of payload) [
      | none ↦ read_calls n ms
      | some name ↦
          record {
            id = codes "call_" ++ call_id n;
            name = name;
            arguments = dumps (arguments_of payload);
          }
          ∷ read_calls (suc n) ms
    ]
  ]

  abbrev pub or_none : Text → Option Text
  or_none [] = none
  or_none (c ∷ t) = some (c ∷ t)

  -- The answer, given the matches and their calls.
  abbrev pub parsed : Text → List (ℕ × Text) → List ToolCall → Option Text × Option (List ToolCall)
  parsed t [] calls = (some t, none)
  parsed t ((start, group) ∷ ms) [] = (some t, none)
  parsed t ((start, group) ∷ ms) (call ∷ calls) =
      (or_none (strip (take start t)), some (call ∷ calls))

  unfoldable pub parse_tool_calls : Text → Option Text × Option (List ToolCall)
  unfolding matches_from read_calls
  parse_tool_calls t = parsed t (matches t) (read_calls 0 (matches t))
