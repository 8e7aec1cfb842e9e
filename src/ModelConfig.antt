-- ===== src/ModelConfig.antt =====
-- ModelConfig of src/wllm/models/config.py, and the choice of the model class in
-- src/wllm/models/registry.py.
pub mod Resolve
use w_llm.Base.{
  ℕ, zero, suc, ◌/◌, Bool, true, false, Option, none, some, List, [], ◌∷◌, ◌==◌, list_beq, text_eq,
  if◌then◌else◌,
}
use w_llm.Base.Dict.{Dict, get}
use w_llm.Base.Outcome.{Result, ok, err, key_error, value_error, zero_division}
use w_llm.Base.Text.{codes}
use w_llm.Api.StopStrings.{Text}

pub record ModelConfig (F : Type 0) : Type 0 where
  pub vocab_size : ℕ
  pub hidden_size : ℕ
  pub intermediate_size : ℕ
  pub num_hidden_layers : ℕ
  pub num_attention_heads : ℕ
  pub num_key_value_heads : ℕ
  pub rms_norm_eps : F
  pub rope_theta : F
  pub max_position_embeddings : ℕ
  pub tie_word_embeddings : Bool
  pub attention_bias : Bool
  pub explicit_head_dim : Option ℕ

-- The object of config.json, as far as it is read: a key that is absent is none. `rope_parameters` has
-- the rope_theta of that object.
pub record RawConfig (F : Type 0) : Type 0 where
  pub vocab_size : Option ℕ
  pub hidden_size : Option ℕ
  pub intermediate_size : Option ℕ
  pub num_hidden_layers : Option ℕ
  pub num_attention_heads : Option ℕ
  pub num_key_value_heads : Option ℕ
  pub rms_norm_eps : Option F
  pub rope_theta : Option F
  pub rope_parameters : Option (Option F)
  pub max_position_embeddings : Option ℕ
  pub tie_word_embeddings : Option Bool
  pub attention_bias : Option Bool
  pub model_type : Option Text
  pub head_dim : Option ℕ

abbrev pub or_else : {A : Type 0} → Option A → A → A
or_else none a = a
or_else (some b) a = b

abbrev pub needed : {A : Type 0} → Option A → Result A
needed none = err key_error
needed (some a) = ok a

module _ {F : Type 0} where
  unfoldable pub head_dim : ModelConfig F → Result ℕ
  head_dim c = elim c.explicit_head_dim [
    | some d ↦ ok d
    | none ↦
        if c.num_attention_heads == 0
        then err zero_division
        else ok (c.hidden_size / c.num_attention_heads)
  ]

  -- raw.get("rope_parameters", {}).get("rope_theta", 10000.0) where rope_theta is absent
  abbrev pub rope_theta_of : F → RawConfig F → F
  rope_theta_of default raw = elim raw.rope_theta [
    | some theta ↦ theta
    | none ↦ or_else (or_else raw.rope_parameters none) default
  ]

  abbrev pub attention_bias_of : RawConfig F → Bool
  attention_bias_of raw = elim raw.attention_bias [
    | some bias ↦ bias
    | none ↦ elim raw.model_type [ none ↦ false | some t ↦ list_beq t (codes "qwen2") ]
  ]

  -- `default_eps` is 1e-6 and `default_theta` 10000.0.
  unfoldable pub from_json : F → F → RawConfig F → Result (ModelConfig F)
  from_json default_eps default_theta raw = elim raw.vocab_size [
    | none ↦ err key_error
    | some vocab_size ↦ elim raw.hidden_size [
      | none ↦ err key_error
      | some hidden_size ↦ elim raw.intermediate_size [
        | none ↦ err key_error
        | some intermediate_size ↦ elim raw.num_hidden_layers [
          | none ↦ err key_error
          | some num_hidden_layers ↦ elim raw.num_attention_heads [
            | none ↦ err key_error
            | some num_attention_heads ↦ ok (record {
              vocab_size = vocab_size;
              hidden_size = hidden_size;
              intermediate_size = intermediate_size;
              num_hidden_layers = num_hidden_layers;
              num_attention_heads = num_attention_heads;
              num_key_value_heads = or_else raw.num_key_value_heads num_attention_heads;
              rms_norm_eps = or_else raw.rms_norm_eps default_eps;
              rope_theta = rope_theta_of default_theta raw;
              max_position_embeddings = or_else raw.max_position_embeddings 4096;
              tie_word_embeddings = or_else raw.tie_word_embeddings false;
              attention_bias = attention_bias_of raw;
              explicit_head_dim = raw.head_dim;
            })
          ]
        ]
      ]
    ]
  ]

pub data ModelClass : Type 0 where
  llama_for_causal_lm qwen2_for_causal_lm gemma_for_causal_lm : ModelClass

abbrev pub architecture_registry : Dict Text ModelClass
architecture_registry =
    (codes "LlamaForCausalLM", llama_for_causal_lm)
    ∷ (codes "Qwen2ForCausalLM", qwen2_for_causal_lm)
    ∷ (codes "GemmaForCausalLM", gemma_for_causal_lm)
    ∷ []

-- The first architecture that the registry has.
unfoldable pub resolve_model_class : List Text → Result ModelClass
resolve_model_class [] = err value_error
resolve_model_class (arch ∷ architectures) = elim (get architecture_registry arch) [
  | some c ↦ ok c
  | none ↦ resolve_model_class architectures
]
