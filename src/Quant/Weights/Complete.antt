-- ===== src/Quant/Weights/Complete.antt =====
-- What a successful load of src/wllm/quant/gguf_loader.py has given the model.
use w_llm.Base.{
  ℕ, map, ◌≡◌, refl, sym, ap, ◌∙◌, ◌⊎◌, inl, inr, Bool, true, false, ◌||◌, List, [], ◌∷◌, list_beq,
  text_beq_iff, text_eq, arith, Bool-cases, subst,
}
use w_llm.Base.Dict.{Dict, get}
use w_llm.Base.Outcome.{
  Result, Error, ok, err, runtime_error, attribute_error, Result-cases, ok-inj, ok_not_err,
}
use w_llm.Api.StopStrings.{Text}
use w_llm.Quant.Dequant.{Float32}
use w_llm.Quant.Weights.{
  ReaderTensor, Quantized, Weight, Sorting, QuantizedLinear, module_path, has, known, any_missing,
  any_unexpected, any_misshapen, has_parent, features, quantized_linear, replacements, eager,
  sort_tensors, load_weights,
}

or_true : (b : Bool) → (b || true) ≡ true
or_true true = refl
or_true false = refl

has-cons :
    {V : Type 0} (t k : Text) (v : V) (d : Dict Text V)
    → has ((t, v) ∷ d) k ≡ (list_beq t k || has d k)
unfolding get
has-cons t k v d = ground arith

module _ {F : Type 0} where
  -- Every key of the model has a weight, eager or quantised.
  any_missing-false :
      (s : Sorting F) (keys : List Text) (k : Text)
      → any_missing s keys ≡ false
      → known keys k ≡ true
      → (has s.state_dict k ≡ true) ⊎ (has s.quantized k ≡ true)
  any_missing-false s [] k h g = cc
  any_missing-false s (t ∷ keys) k h g =
      ground (arith, any_missing-false s keys k, text_beq_iff t k)

  any_unexpected-false :
      (keys : List Text) (d : Dict Text (Weight F)) (k : Text)
      → any_unexpected keys d ≡ false
      → has d k ≡ true
      → known keys k ≡ true
  unfolding get
  any_unexpected-false keys [] k h g = cc
  any_unexpected-false keys ((t, w) ∷ d) k h g =
      ground (arith, any_unexpected-false keys d k, text_beq_iff t k)

  -- A run of the replacements that returns has replaced the first module, and the rest.
  replacements-cons :
      (ms : List Text) (sd : Dict Text (Weight F)) (t : Text) (q : Quantized)
      (rest : Dict Text Quantized) (modules : Dict Text (QuantizedLinear F))
      → replacements ms sd ((t, q) ∷ rest) ≡ ok modules
      → (l : QuantizedLinear F) × (others : Dict Text (QuantizedLinear F)) × (modules
          ≡ (module_path t, l) ∷ others)
        × (replacements ms sd rest ≡ ok others)
  unfolding replacements
  replacements-cons ms sd t q rest modules e = elim (Bool-cases (has_parent ms (module_path t))) [
    | inr lost ↦
        let run : replacements ms sd ((t, q) ∷ rest) ≡ err attribute_error =
          rw (lost, replacements) refl in
        absurd (ok_not_err (sym run ∙ e))
    | inl there ↦ elim (Result-cases (features q.shape)) [
      | inl (shape, two) ↦ elim (Result-cases (replacements ms sd rest)) [
        | inl (others, done) ↦ (
          quantized_linear sd (module_path t) q shape,
          others,
          ok-inj (sym e ∙ rw (there, replacements) (rw two (rw done refl))),
          done,
        )
        | inr (x, failed) ↦
            let run : replacements ms sd ((t, q) ∷ rest) ≡ err x =
              rw (there, replacements) (rw two (rw failed refl)) in
            absurd (ok_not_err (sym run ∙ e))
      ]
      | inr (x, failed) ↦
          let run : replacements ms sd ((t, q) ∷ rest) ≡ err x =
            rw (there, replacements) (rw failed refl) in
          absurd (ok_not_err (sym run ∙ e))
    ]
  ]

  has-replacements :
      (ms : List Text) (sd : Dict Text (Weight F)) (q : Dict Text Quantized)
      (modules : Dict Text (QuantizedLinear F)) (k : Text)
      → replacements ms sd q ≡ ok modules
      → has q k ≡ true
      → has modules (module_path k) ≡ true
  unfolding get
  has-replacements ms sd [] modules k e g = cc
  has-replacements ms sd ((t, q) ∷ rest) modules k e g =
      let (l, others, same, run) = replacements-cons ms sd t q rest modules e in
      ap (λ d. has d (module_path k)) same
      ∙ has-cons (module_path t) (module_path k) l others
      ∙ (elim (Bool-cases (list_beq t k)) [
        | inl here ↦
            let eq : t ≡ k = (text_beq_iff t k).0 here in
            let found : list_beq (module_path t) (module_path k) ≡ true =
              (text_beq_iff (module_path t) (module_path k)).1 (ap module_path eq) in
            rw found refl
        | inr later ↦
            let found =
              has-replacements ms sd rest others k run
                (sym (ap (λ b. b || has rest k) later) ∙ sym (has-cons t k q rest) ∙ g) in
            rw found (or_true (list_beq (module_path t) (module_path k)))
      ])

module _ {F : Type 0} where
  -- Each key of the model has a weight or a module that replaces it, and each weight is one of its keys.
  abbrev pub IsComplete : List Text → Dict Text (Weight F) → Dict Text (QuantizedLinear F) → Type 0
  IsComplete keys state_dict modules =
      ((k : Text)
        → known keys k ≡ true
        → (has state_dict k ≡ true) ⊎ (has modules (module_path k) ≡ true))
      × ((k : Text) → has state_dict k ≡ true → known keys k ≡ true)

  sorted-IsComplete :
      (ms : List Text) (keys : List Text) (s : Sorting F) (modules : Dict Text (QuantizedLinear F))
      → any_missing s keys ≡ false
      → any_unexpected keys s.state_dict ≡ false
      → replacements ms s.state_dict s.quantized ≡ ok modules
      → IsComplete keys s.state_dict modules
  sorted-IsComplete ms keys s modules full expected replaced = (
    λ k h. elim (any_missing-false s keys k full h) [
      | inl eager ↦ inl eager
      | inr quantised ↦
          inr (has-replacements ms s.state_dict s.quantized modules k replaced quantised)
    ],
    λ k h. any_unexpected-false keys s.state_dict k expected h,
  )

-- A call that raises has not returned.
refused : {A : Type 0} {B : Type 0} (r : Result A) (a : A) (x : Error) → r ≡ ok a → r ≡ err x → B
refused r a x e run = absurd (ok_not_err (sym run ∙ e))

module _ {F : Type 0} (m : Float32 F) where
  -- A load that returns has given the model each of its parameters, as a weight of the state dict or as
  -- a quantised module in its place, and no weight that is none of its parameters.
  pub load_weights-IsComplete :
      (ms : List Text) (params : List (Text × List ℕ)) (tensors : List ReaderTensor)
      (state_dict : Dict Text (Weight F)) (modules : Dict Text (QuantizedLinear F))
      → load_weights m ms params tensors ≡ ok (state_dict, modules)
      → IsComplete (map (λ (p : Text × List ℕ). p.0) params) state_dict modules
  unfolding load_weights
  load_weights-IsComplete ms params tensors state_dict modules e =
      let empty : Sorting F = record { state_dict = []; quantized = [] } in
      let keys = map (λ (p : Text × List ℕ). p.0) params in
      elim (Result-cases (sort_tensors m tensors empty)) [
        | inl (s, sorted) ↦ elim (Bool-cases (any_misshapen params s.state_dict)) [
          | inl bad ↦ refused _ _ runtime_error e (rw (sorted, load_weights) (rw bad refl))
          | inr fits ↦ elim (Bool-cases (any_missing s keys)) [
            | inl lacks ↦
                refused _ _ runtime_error e (rw (sorted, load_weights) (rw fits (rw lacks refl)))
            | inr full ↦ elim (Bool-cases (any_unexpected keys s.state_dict)) [
              | inl strange ↦
                  refused _ _ runtime_error e
                    (rw (sorted, load_weights) (rw fits (rw full (rw strange refl))))
              | inr expected ↦ elim (Result-cases (replacements ms s.state_dict s.quantized)) [
                | inl (mods, replaced) ↦
                    let run : load_weights m ms params tensors ≡ ok (s.state_dict, mods) =
                      rw (sorted, load_weights)
                        (rw fits (rw full (rw expected (rw replaced refl)))) in
                    subst
                      (λ (p : Dict Text (Weight F) × Dict Text (QuantizedLinear F)).
                        IsComplete keys p.0 p.1)
                      (ok-inj (sym run ∙ e))
                      (sorted-IsComplete ms keys s mods full expected replaced)
                | inr (x, failed) ↦
                    refused _ _ x e
                      (rw (sorted, load_weights) (rw fits (rw full (rw expected (rw failed refl)))))
              ]
            ]
          ]
        ]
        | inr (x, failed) ↦ refused _ _ x e (rw (failed, load_weights) refl)
      ]
