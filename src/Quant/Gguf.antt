-- ===== src/Quant/Gguf.antt =====
-- The names of the tensors of a GGUF file in src/wllm/quant/gguf_loader.py.
pub mod Names
use w_llm.Base.{
  ℕ, zero, suc, ◌+◌, ◌*◌, ◌-◌, Bool, true, false, ◌&&◌, ◌||◌, not, Option, none, some, List, [],
  ◌∷◌, ◌++◌, map, length, drop, take, ltb, leb, ◌==◌, list_beq, text_eq, if◌then◌else◌,
}
use w_llm.Base.Dict.{Dict, get, put}
use w_llm.Base.Outcome.{Result, ok, err, runtime_error, value_error}
use w_llm.Base.Text.{codes, ends_with}
use w_llm.Api.StopStrings.{Text}
use w_llm.Quant.Dequant.{Float32, dequantize, ggml_type_f32, ggml_type_f16}

abbrev pub block_tensor_map : Dict Text Text
block_tensor_map =
    (codes "attn_norm.weight", codes "input_layernorm.weight")
    ∷ (codes "attn_q.weight", codes "self_attn.q_proj.weight")
    ∷ (codes "attn_q.bias", codes "self_attn.q_proj.bias")
    ∷ (codes "attn_k.weight", codes "self_attn.k_proj.weight")
    ∷ (codes "attn_k.bias", codes "self_attn.k_proj.bias")
    ∷ (codes "attn_v.weight", codes "self_attn.v_proj.weight")
    ∷ (codes "attn_v.bias", codes "self_attn.v_proj.bias")
    ∷ (codes "attn_output.weight", codes "self_attn.o_proj.weight")
    ∷ (codes "ffn_norm.weight", codes "post_attention_layernorm.weight")
    ∷ (codes "ffn_gate.weight", codes "mlp.gate_proj.weight")
    ∷ (codes "ffn_up.weight", codes "mlp.up_proj.weight")
    ∷ (codes "ffn_down.weight", codes "mlp.down_proj.weight")
    ∷ []

abbrev pub linear_suffixes : List Text
linear_suffixes =
    codes "self_attn.q_proj.weight"
    ∷ codes "self_attn.k_proj.weight"
    ∷ codes "self_attn.v_proj.weight"
    ∷ codes "self_attn.o_proj.weight"
    ∷ codes "mlp.gate_proj.weight"
    ∷ codes "mlp.up_proj.weight"
    ∷ codes "mlp.down_proj.weight"
    ∷ []

-- \d, for ASCII digits
abbrev pub is_digit : ℕ → Bool
is_digit c = leb b'0' c && leb c b'9'

-- (\d+) is greedy: the digits in front, and what follows them.
unfoldable pub digits : Text → Text × Text
digits [] = ([], [])
digits (c ∷ t) = let rest = digits t in if is_digit c then (c ∷ rest.0, rest.1) else ([], c ∷ t)

abbrev pub blk : Text
blk = codes "blk."

-- (.+) stops before a newline.
unfoldable pub line : Text → Text
line [] = []
line (c ∷ t) = let rest = line t in if c == 10 then [] else c ∷ rest

-- \.(.+) behind the digits
unfoldable pub after_digits : Text × Text → Option (Text × Text)
unfolding line
after_digits ([], t) = none
after_digits (c ∷ idx, []) = none
after_digits (c ∷ idx, d ∷ t) =
    if d == b'.' then (elim (line t) [ [] ↦ none | e ∷ rest ↦ some (c ∷ idx, e ∷ rest) ]) else none

-- re.match(r"blk\.(\d+)\.(.+)", name): the two groups
unfoldable pub match_block : Text → Option (Text × Text)
unfolding digits after_digits
match_block name = if list_beq (take 4 name) blk then after_digits (digits (drop 4 name)) else none

unfoldable pub map_tensor_name : Text → Option Text
unfolding match_block
map_tensor_name name =
    if list_beq name (codes "token_embd.weight")
    then some (codes "model.embed_tokens.weight")
    else if list_beq name (codes "output_norm.weight")
    then some (codes "model.norm.weight")
    else if list_beq name (codes "output.weight")
    then some (codes "lm_head.weight")
    else (elim (match_block name) [
      | none ↦ none
      | some (idx, rest) ↦ elim (get block_tensor_map rest) [
        | none ↦ none
        | some mapped_rest ↦ some (codes "model.layers." ++ idx ++ b'.' ∷ mapped_rest)
      ]
    ])
