-- ===== src/Lora.antt =====
-- The adapters of src/wllm/engine/lora.py: the registry, and the deltas of a batch whose rows use
-- different adapters. Files, matrix products and the parsing of an int are parameters.
pub mod Delta
pub mod Key
pub mod Rows
use w_llm.Base.{
  ◌↔◌, ℕ, zero, suc, ◌+◌, ◌<◌, ◌≡◌, Bool, true, false, ◌&&◌, Option, none, some, List, [], ◌∷◌, map,
  get_elem?, set, elem, ◌==◌, nat_eq, text_eq, list_beq, text_beq_iff, if◌then◌else◌, Eq, arith,
}
use w_llm.Base.Int.{ℤ, int_beq, int_beq_iff}
use w_llm.Base.Dict.{Dict, get, put, remove}
use w_llm.Base.Outcome.{Result, ok, err, index_error, key_error, zero_division}
use w_llm.Base.Text.{codes, split, ends_with, replace, index_of}
use w_llm.Api.StopStrings.{Text}

-- (layer_idx, module_name)
abbrev pub Key : Type 0
Key = ℤ × Text

abbrev pub key_beq : Key → Key → Bool
key_beq (i, a) (j, b) = int_beq i j && list_beq a b

pub key_beq_iff : (k l : Key) → (key_beq k l ≡ true) ↔ (k ≡ l)
key_beq_iff (i, a) (j, b) = ground (arith, int_beq_iff i j, text_beq_iff a b)

instance abbrev pub key_eq : Eq Key
key_eq = record { beq = key_beq; beq_iff = key_beq_iff }

-- (A, B, scale)
pub record Weights (M F : Type 0) : Type 0 where
  pub a : M
  pub b : M
  pub scale : F

-- What adapter_config.json and adapter_model.safetensors of a path hold.
pub record AdapterFiles (M : Type 0) : Type 0 where
  pub r : Option ℕ
  pub lora_alpha : Option ℕ
  pub state_dict : Dict Text M

-- self._adapters
abbrev pub LoraRegistry : Type 0 → Type 0 → Type 0
LoraRegistry M F = Dict ℕ (Dict Key (Weights M F))

module _ {M F : Type 0} where
  unfoldable pub unload_adapter : ℕ → LoraRegistry M F → LoraRegistry M F
  unload_adapter adapter_id registry = remove registry adapter_id

  unfoldable pub list_adapters : LoraRegistry M F → List ℕ
  list_adapters [] = []
  list_adapters ((adapter_id, weights) ∷ registry) = adapter_id ∷ list_adapters registry

  unfoldable pub get_weights : LoraRegistry M F → ℕ → Key → Option (Weights M F)
  get_weights registry adapter_id key = elim (get registry adapter_id) [
    | none ↦ none
    | some weights ↦ get weights key
  ]

-- `int` is Python's int of a string, or none where that raises ValueError.
unfoldable pub key_of_parts : (Text → Option ℤ) → List Text → Option Key
key_of_parts int parts = elim (index_of (codes "layers") parts) [
  | none ↦ none
  | some layers_idx ↦ elim (get_elem? parts (layers_idx + 1)) [
    | none ↦ none
    | some number ↦ elim (int number) [
      | none ↦ none
      | some layer_num ↦ elim (get_elem? parts (layers_idx + 3)) [
        | none ↦ none
        | some module_name ↦ some (layer_num, module_name)
      ]
    ]
  ]
]

unfoldable pub parse_lora_key : (Text → Option ℤ) → Text → Option Key
unfolding key_of_parts
parse_lora_key int key = key_of_parts int (split b'.' key)

-- `ratio alpha r` is alpha / r for a rank that is not 0; `cast` moves a matrix to the device and type.
module _ {M F : Type 0} (int : Text → Option ℤ) (ratio : ℕ → ℕ → F) (cast : M → M) where
  -- The pairs of matrices of a state dict, under the layer and the module of the A's key.
  unfoldable pub add_pairs :
      F → Dict Text M → Dict Text M → Dict Key (Weights M F) → Dict Key (Weights M F)
  unfolding parse_lora_key
  add_pairs scale state_dict [] weights = weights
  add_pairs scale state_dict ((key, tensor) ∷ rest) weights =
      let b_key = replace (codes "lora_A.weight") (codes "lora_B.weight") key in
      let weights' =
        if ends_with (codes "lora_A.weight") key
        then (elim (get state_dict b_key) [
          | none ↦ weights
          | some tensor_b ↦ elim (parse_lora_key int key) [
            | none ↦ weights
            | some k ↦ put weights k (record { a = cast tensor; b = cast tensor_b; scale = scale })
          ]
        ])
        else weights in
      add_pairs scale state_dict rest weights'

  unfoldable pub load_adapter : ℕ → AdapterFiles M → LoraRegistry M F → Result (LoraRegistry M F)
  unfolding add_pairs
  load_adapter adapter_id files registry = elim files.r [
    | none ↦ err key_error
    | some rank ↦ elim files.lora_alpha [
      | none ↦ err key_error
      | some alpha ↦
          if rank == 0
          then err zero_division
          else ok (
              put registry adapter_id
                (add_pairs (ratio alpha rank) files.state_dict files.state_dict []))
    ]
  ]

-- [i for i, lid in enumerate(lora_ids) if lid == adapter_id]
unfoldable pub rows_with : ℕ → List (Option ℕ) → List ℕ
rows_with adapter_id [] = []
rows_with adapter_id (none ∷ lora_ids) = map suc (rows_with adapter_id lora_ids)
rows_with adapter_id (some lid ∷ lora_ids) =
    let rest = map suc (rows_with adapter_id lora_ids) in
    if lid == adapter_id then 0 ∷ rest else rest

-- {lid for lid in lora_ids if lid is not None}, in the order of the first occurrences.
unfoldable pub unique_ids : List (Option ℕ) → List ℕ → List ℕ
unique_ids [] seen = []
unique_ids (none ∷ lora_ids) seen = unique_ids lora_ids seen
unique_ids (some lid ∷ lora_ids) seen =
    let again = unique_ids lora_ids seen in
    let first = lid ∷ unique_ids lora_ids (lid ∷ seen) in if elem lid seen then again else first

module _ {X : Type 0} where
  -- x.index_select(0, row_idx)
  unfoldable pub index_select : List X → List ℕ → Result (List X)
  index_select x [] = ok []
  index_select x (i ∷ row_idx) = elim (get_elem? x i) [
    | none ↦ err index_error
    | some row ↦ elim (index_select x row_idx) [ err e ↦ err e | ok rows ↦ ok (row ∷ rows) ]
  ]

module _ {Y : Type 0} (add : Y → Y → Y) where
  -- base_out.index_add(0, row_idx, delta)
  unfoldable pub index_add : List Y → List ℕ → List Y → Result (List Y)
  index_add base_out (i ∷ row_idx) (d ∷ ds) = elim (get_elem? base_out i) [
    | none ↦ err index_error
    | some row ↦ index_add (set base_out i (add row d)) row_idx ds
  ]
  index_add base_out _ _ = ok base_out

-- Rows are abstract: `delta w` is the delta of one row of x, `add` the sum of two rows of the output.
module _ {X Y M F : Type 0} (delta : Weights M F → X → Y) (add : Y → Y → Y) where
  -- One adapter of the batch.
  unfoldable pub add_adapter :
      LoraRegistry M F → Key → List (Option ℕ) → List X → ℕ → List Y → Result (List Y)
  unfolding get_weights rows_with index_select index_add
  add_adapter registry key lora_ids x adapter_id base_out =
      elim (get_weights registry adapter_id key) [
        | none ↦ ok base_out
        | some w ↦
            let row_idx = rows_with adapter_id lora_ids in
            elim (index_select x row_idx) [
              | err e ↦ err e
              | ok x_rows ↦ index_add add base_out row_idx (map (delta w) x_rows)
            ]
      ]

  unfoldable pub add_adapters :
      LoraRegistry M F → Key → List (Option ℕ) → List X → List ℕ → List Y → Result (List Y)
  unfolding add_adapter
  add_adapters registry key lora_ids x [] base_out = ok base_out
  add_adapters registry key lora_ids x (adapter_id ∷ ids) base_out =
      elim (add_adapter registry key lora_ids x adapter_id base_out) [
        | err e ↦ err e
        | ok base_out' ↦ add_adapters registry key lora_ids x ids base_out'
      ]

  -- Neither lora_ids nor a registry need be given. `order` is that in which Python walks the set.
  unfoldable pub apply_lora_delta :
      (List ℕ → List ℕ)
      → List X
      → List Y
      → Option (List (Option ℕ))
      → Option (LoraRegistry M F)
      → Key
      → Result (List Y)
  unfolding unique_ids add_adapters
  apply_lora_delta order x base_out (some lora_ids) (some registry) key =
      add_adapters registry key lora_ids x (order (unique_ids lora_ids [])) base_out
  apply_lora_delta order x base_out _ _ key = ok base_out
