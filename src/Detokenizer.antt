-- ===== src/Detokenizer.antt =====
-- IncrementalDetokenizer of src/wllm/engine/detokenizer.py. The tokenizer's `decode`, which skips
-- special tokens, is a parameter.
use w_llm.Base.{ℕ, List, [], ◌∷◌, ◌++◌, length, drop}
use w_llm.Api.StopStrings.{Text}

pub record IncrementalDetokenizer : Type 0 where
  pub token_ids : List ℕ
  pub prev_text : Text

abbrev pub new_detokenizer : IncrementalDetokenizer
new_detokenizer = record { token_ids = []; prev_text = [] }

module _ (decode : List ℕ → Text) where
  -- The new text, and the state that is left.
  unfoldable pub add_token : ℕ → IncrementalDetokenizer → Text × IncrementalDetokenizer
  add_token token_id d =
      let token_ids = d.token_ids ++ token_id ∷ [] in
      let full_text = decode token_ids in
      (drop (length d.prev_text) full_text, record { token_ids = token_ids; prev_text = full_text })

  -- Token after token.
  unfoldable pub add_tokens : List ℕ → IncrementalDetokenizer → List Text × IncrementalDetokenizer
  unfolding add_token
  add_tokens [] d = ([], d)
  add_tokens (t ∷ ts) d =
      let (delta, d') = add_token t d in
      let (deltas, d'') = add_tokens ts d' in (delta ∷ deltas, d'')
