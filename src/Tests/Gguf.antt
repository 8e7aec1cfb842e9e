-- ===== src/Tests/Gguf.antt =====
-- A GGUF file of src/wllm/quant/gguf_loader.py with two tensors: a norm, and a quantised output.
use w_llm.Base.{ℕ, ◌≡◌, refl, none, List, [], ◌∷◌, replicate, text_eq}
use w_llm.Base.Dict.{Dict, get, put}
use w_llm.Base.Outcome.{ok}
use w_llm.Base.Text.{codes}
use w_llm.Api.StopStrings.{Text}
use w_llm.Quant.Dequant.{dequantize}
use w_llm.Quant.Weights.{ReaderTensor, Weight, QuantizedLinear, load_weights}
use w_llm.Quant.Weights.Complete.{IsComplete, load_weights-IsComplete}
use w_llm.Tests.Quant.{Term, terms}

abbrev two_params : List (Text × List ℕ)
two_params = (codes "model.norm.weight", 1 ∷ []) ∷ (codes "lm_head.weight", 1 ∷ 32 ∷ []) ∷ []

abbrev two_tensors : List ReaderTensor
two_tensors =
    record {
      name = codes "output_norm.weight";
      tensor_type = 1;
      shape = 1 ∷ [];
      n_elements = 1;
      bytes = 0 ∷ 60 ∷ [];
    }
    ∷ record {
      name = codes "output.weight";
      tensor_type = 2;
      shape = 32 ∷ 1 ∷ [];
      n_elements = 32;
      bytes = replicate 18 0;
    }
    ∷ []

abbrev norm : Dict Text (Weight Term)
norm = (codes "model.norm.weight", record { values = Term.half 0 60 ∷ []; shape = 1 ∷ [] }) ∷ []

abbrev head : Dict Text (QuantizedLinear Term)
head =
    (
      codes "lm_head",
      record {
        raw_data = replicate 18 0;
        ggml_type = 2;
        out_features = 1;
        in_features = 32;
        bias = none;
      },
    )
    ∷ []

loaded : load_weights terms [] two_params two_tensors ≡ ok (norm, head)
unfolding load_weights dequantize get put
loaded = refl

load_weights-IsComplete_example :
    IsComplete (codes "model.norm.weight" ∷ codes "lm_head.weight" ∷ []) norm head
load_weights-IsComplete_example =
    load_weights-IsComplete terms [] two_params two_tensors norm head loaded
