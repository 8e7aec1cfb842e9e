-- ===== src/Quant/Weights.antt =====
-- The loading of src/wllm/quant/gguf_loader.py: which tensors of a GGUF file are dequantised, and which
-- stay quantised in a QuantizedLinear (src/wllm/quant/quant_linear.py). The reader of the file is a
-- parameter: `tensors` are the values of tensors_by_name.
pub mod Complete
use w_llm.Base.{
  map, ℕ, ◌*◌, ◌-◌, Bool, true, false, ◌&&◌, ◌||◌, not, Option, none, some, List, [], ◌∷◌, ◌++◌,
  length, take, ◌==◌, list_beq, text_eq, if◌then◌else◌,
}
use w_llm.Base.Dict.{Dict, get, put}
use w_llm.Base.Outcome.{Result, ok, err, runtime_error, attribute_error, value_error}
use w_llm.Base.Text.{codes, ends_with}
use w_llm.Api.StopStrings.{Text}
use w_llm.Quant.Dequant.{Float32, dequantize, ggml_type_f32, ggml_type_f16}
use w_llm.Quant.Gguf.{linear_suffixes, map_tensor_name}

-- A tensor of the file: its name, its type, its dimensions in the file's order, and its bytes.
pub record ReaderTensor : Type 0 where
  pub name : Text
  pub tensor_type : ℕ
  pub shape : List ℕ
  pub n_elements : ℕ
  pub bytes : List ℕ

abbrev pub product : List ℕ → ℕ
product [] = 1
product (n ∷ ns) = n * product ns

abbrev pub reverse_onto : List ℕ → List ℕ → List ℕ
reverse_onto [] acc = acc
reverse_onto (n ∷ ns) acc = reverse_onto ns (n ∷ acc)

abbrev pub tensor_shape : ReaderTensor → List ℕ
tensor_shape t = reverse_onto t.shape []

-- any(mapped.endswith(s) for s in suffixes)
abbrev pub ends_with_any : List Text → Text → Bool
ends_with_any [] t = false
ends_with_any (s ∷ suffixes) t = ends_with s t || ends_with_any suffixes t

abbrev pub is_quantizable_linear : Text → Bool
is_quantizable_linear mapped =
    list_beq mapped (codes "lm_head.weight") || ends_with_any linear_suffixes mapped

-- (raw, ggml_type, shape)
pub record Quantized : Type 0 where
  pub raw : List ℕ
  pub ggml_type : ℕ
  pub shape : List ℕ

-- A tensor of the state dict: its values and its shape.
pub record Weight (F : Type 0) : Type 0 where
  pub values : List F
  pub shape : List ℕ

pub record Sorting (F : Type 0) : Type 0 where
  pub state_dict : Dict Text (Weight F)
  pub quantized : Dict Text Quantized

abbrev pub stays_quantized : Text → ℕ → Bool
stays_quantized mapped ggml_type =
    is_quantizable_linear mapped
    && not ((ggml_type == ggml_type_f32) || (ggml_type == ggml_type_f16))

pub record QuantizedLinear (F : Type 0) : Type 0 where
  pub raw_data : List ℕ
  pub ggml_type : ℕ
  pub out_features : ℕ
  pub in_features : ℕ
  pub bias : Option (Weight F)

-- weight_name.removesuffix(".weight")
abbrev pub module_path : Text → Text
module_path weight_name =
    if ends_with (codes ".weight") weight_name
    then take (length weight_name - 7) weight_name
    else weight_name

-- set(missing) - set(quantized.keys()), and the keys of the state dict that the model has not.
module _ {V : Type 0} where
  abbrev pub has : Dict Text V → Text → Bool
  has d k = elim (get d k) [ none ↦ false | some v ↦ true ]

abbrev pub known : List Text → Text → Bool
known [] k = false
known (t ∷ ts) k = list_beq t k || known ts k

module _ {F : Type 0} where
  abbrev pub any_missing : Sorting F → List Text → Bool
  any_missing s [] = false
  any_missing s (k ∷ keys) =
      (not (has s.state_dict k) && not (has s.quantized k)) || any_missing s keys

  abbrev pub any_unexpected : List Text → Dict Text (Weight F) → Bool
  any_unexpected keys [] = false
  any_unexpected keys ((k, w) ∷ d) = not (known keys k) || any_unexpected keys d

  -- A parameter of another shape than the weight with its name, which load_state_dict raises for.
  abbrev pub misshapen : List (Text × List ℕ) → Text → Weight F → Bool
  misshapen [] k w = false
  misshapen ((t, shape) ∷ params) k w =
      (list_beq t k && not (list_beq shape w.shape)) || misshapen params k w

  abbrev pub any_misshapen : List (Text × List ℕ) → Dict Text (Weight F) → Bool
  any_misshapen params [] = false
  any_misshapen params ((k, w) ∷ d) = misshapen params k w || any_misshapen params d

-- module_path.rsplit(".", 1)[0], where there is a dot.
abbrev pub parent_path : Text → Option Text
parent_path [] = none
parent_path (c ∷ cs) = elim (parent_path cs) [
  | some p ↦ some (c ∷ p)
  | none ↦ if c == 46 then some [] else none
]

-- Whether _get_module finds the parent, among the modules of the model.
abbrev pub has_parent : List Text → Text → Bool
has_parent modules path = elim (parent_path path) [ none ↦ true | some p ↦ known modules p ]

-- out_features, in_features = shape
abbrev pub features : List ℕ → Result (ℕ × ℕ)
features [] = err value_error
features (out_features ∷ []) = err value_error
features (out_features ∷ in_features ∷ []) = ok (out_features, in_features)
features (out_features ∷ in_features ∷ n ∷ ns) = err value_error

module _ {F : Type 0} where
  abbrev pub quantized_linear : Dict Text (Weight F) → Text → Quantized → ℕ × ℕ → QuantizedLinear F
  quantized_linear state_dict path q (out_features, in_features) = record {
    raw_data = q.raw;
    ggml_type = q.ggml_type;
    out_features = out_features;
    in_features = in_features;
    bias = get state_dict (path ++ codes ".bias");
  }

  -- The modules that take the place of linear layers, by their paths.
  unfoldable pub replacements :
      List Text
      → Dict Text (Weight F)
      → Dict Text Quantized
      → Result (Dict Text (QuantizedLinear F))
  replacements modules state_dict [] = ok []
  replacements modules state_dict ((weight_name, q) ∷ rest) =
      if has_parent modules (module_path weight_name)
      then (elim (features q.shape) [
        | err e ↦ err e
        | ok shape ↦ elim (replacements modules state_dict rest) [
          | err e ↦ err e
          | ok linears ↦ ok (
              (
                module_path weight_name,
                quantized_linear state_dict (module_path weight_name) q shape,
              )
              ∷ linears)
        ]
      ])
      else err attribute_error

module _ {F : Type 0} (m : Float32 F) where
  -- .reshape(shape)
  abbrev pub reshape : List ℕ → List F → Result (Weight F)
  reshape shape flat =
      if length flat == product shape
      then ok (record { values = flat; shape = shape })
      else err runtime_error

  abbrev pub eager : ReaderTensor → Result (Weight F)
  eager t = elim (dequantize m t.bytes t.tensor_type t.n_elements) [
    | err e ↦ err e
    | ok flat ↦ reshape (tensor_shape t) flat
  ]

  -- One tensor of the loop over tensors_by_name.
  unfoldable pub sort_tensor : ReaderTensor → Sorting F → Result (Sorting F)
  unfolding map_tensor_name
  sort_tensor t s = elim (map_tensor_name t.name) [
    | none ↦ ok s
    | some mapped ↦
        if stays_quantized mapped t.tensor_type
        then ok (record s {
          quantized =
              put s.quantized mapped
                (record { raw = t.bytes; ggml_type = t.tensor_type; shape = tensor_shape t });
        })
        else (elim (eager t) [
          | err e ↦ err e
          | ok w ↦ ok (record s { state_dict = put s.state_dict mapped w })
        ])
  ]

  unfoldable pub sort_tensors : List ReaderTensor → Sorting F → Result (Sorting F)
  unfolding sort_tensor
  sort_tensors [] s = ok s
  sort_tensors (t ∷ ts) s = elim (sort_tensor t s) [ err e ↦ err e | ok s' ↦ sort_tensors ts s' ]

  -- What load_gguf gives a model of the given modules, whose parameters have the names and the shapes
  -- `params`: the state dict, and the modules that replace linear layers.
  unfoldable pub load_weights :
      List Text
      → List (Text × List ℕ)
      → List ReaderTensor
      → Result (Dict Text (Weight F) × Dict Text (QuantizedLinear F))
  unfolding sort_tensors replacements
  load_weights modules params tensors =
      let keys = map (λ (p : Text × List ℕ). p.0) params in
      elim (sort_tensors tensors (record { state_dict = []; quantized = [] })) [
        | err e ↦ err e
        | ok s ↦
            if any_misshapen params s.state_dict
            then err runtime_error
            else if any_missing s keys
            then err runtime_error
            else if any_unexpected keys s.state_dict
            then err runtime_error
            else (elim (replacements modules s.state_dict s.quantized) [
              | err e ↦ err e
              | ok linears ↦ ok (s.state_dict, linears)
            ])
      ]

  -- QuantizedLinear.forward: `linear` is F.linear on rows of `in_features` values.
  unfoldable pub forward :
      {X Y : Type 0} (linear : X → Weight F → Option (Weight F) → Y)
      → QuantizedLinear F
      → X
      → Result Y
  forward linear l x = elim (dequantize m l.raw_data l.ggml_type (l.out_features * l.in_features)) [
    | err e ↦ err e
    | ok flat ↦ elim (reshape (l.out_features ∷ l.in_features ∷ []) flat) [
      | err e ↦ err e
      | ok weight ↦ ok (linear x weight l.bias)
    ]
  ]
