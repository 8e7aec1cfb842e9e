-- ===== src/ModelConfig/Resolve.antt =====
-- What resolve_model_class of src/wllm/models/registry.py chooses.
use w_llm.Base.{
  ℕ, suc, ◌≡◌, refl, ◌⊎◌, inl, inr, none, some, List, [], ◌∷◌, get_elem?, All, take, Option-cases,
  text_eq,
}
use w_llm.Base.Dict.{get}
use w_llm.Base.Outcome.{ok, err, value_error}
use w_llm.Api.StopStrings.{Text}
use w_llm.ModelConfig.{ModelClass, architecture_registry, resolve_model_class}

abbrev pub IsUnknown : Text → Type 0
IsUnknown arch = get architecture_registry arch ≡ none

-- The class is that of the first architecture of the list that is registered; where none is, the call
-- raises ValueError.
pub resolve_model_class-first :
    (architectures : List Text)
    → ((i : ℕ) × (arch : Text) × (c : ModelClass) × (resolve_model_class architectures ≡ ok c)
        × (get_elem? architectures i ≡ some arch)
        × (get architecture_registry arch ≡ some c)
        × All IsUnknown (take i architectures))
      ⊎ ((resolve_model_class architectures ≡ err value_error) × All IsUnknown architectures)
unfolding resolve_model_class
resolve_model_class-first [] = inr (refl, tt)
resolve_model_class-first (arch ∷ rest) = elim (Option-cases (get architecture_registry arch)) [
  | inr (c, known) ↦ inl (0, arch, c, rw (known, resolve_model_class) refl, refl, known, tt)
  | inl unknown ↦ elim (resolve_model_class-first rest) [
    | inl (i, a, c, run, at, known, before) ↦
        inl (suc i, a, c, rw (unknown, resolve_model_class) run, at, known, (unknown, before))
    | inr (run, all) ↦ inr (rw (unknown, resolve_model_class) run, (unknown, all))
  ]
]
