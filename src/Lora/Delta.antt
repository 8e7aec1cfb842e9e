-- ===== src/Lora/Delta.antt =====
-- The rows of apply_lora_delta (src/wllm/engine/lora.py), each with its own adapter.
use w_llm.Base.{
  ℕ, ◌≡◌, refl, sym, ap, ◌∙◌, inl, inr, Option, none, some, List, [], ◌∷◌, map, length, count, ◌==◌,
  if◌then◌else◌, arith, Bool-cases, Option-cases,
}
use w_llm.Base.Outcome.{ok}
use w_llm.Lora.{
  Key, Weights, LoraRegistry, get_weights, rows_with, unique_ids, index_add, add_adapter,
  add_adapters, apply_lora_delta,
}
use w_llm.Lora.Rows.{
  count-unique_ids, rows_of, index_select-rows_with, behind, index_add-suc, rowwise, length-rowwise,
  rowwise-rowwise, rowwise-ext, rowwise-idle,
}

module _ {X Y M F : Type 0} (delta : Weights M F → X → Y) (add : Y → Y → Y) where
  -- The row of somebody who uses the adapter with the weights w.
  abbrev add_if : ℕ → Weights M F → Option ℕ → X → Y → Y
  add_if a w none x y = y
  add_if a w (some l) x y = if l == a then add y (delta w x) else y

  index_add-rows :
      (a : ℕ) (w : Weights M F) (ls : List (Option ℕ)) (xs : List X) (ys : List Y)
      → length ls ≡ length xs
      → length ls ≡ length ys
      → index_add add ys (rows_with a ls) (map (delta w) (rows_of a ls xs))
        ≡ ok (rowwise (add_if a w) ls xs ys)
  unfolding index_add rows_with rows_of
  index_add-rows a w [] xs ys e h = refl
  index_add-rows a w (l ∷ ls) [] ys e h = absurd (omega arith)
  index_add-rows a w (l ∷ ls) (x ∷ xs) [] e h = absurd (omega arith)
  index_add-rows a w (none ∷ ls) (x ∷ xs) (y ∷ ys) e h =
      index_add-suc add y ys (rows_with a ls) (map (delta w) (rows_of a ls xs))
      ∙ ap (behind add y) (index_add-rows a w ls xs ys (omega arith) (omega arith))
  index_add-rows a w (some l ∷ ls) (x ∷ xs) (y ∷ ys) e h = elim (Bool-cases (l == a)) [
    | inl same ↦ rw same (
        index_add-suc add (add y (delta w x)) ys (rows_with a ls) (map (delta w) (rows_of a ls xs))
        ∙ ap (behind add (add y (delta w x)))
            (index_add-rows a w ls xs ys (omega arith) (omega arith)))
    | inr other ↦ rw other (
        index_add-suc add y ys (rows_with a ls) (map (delta w) (rows_of a ls xs))
        ∙ ap (behind add y) (index_add-rows a w ls xs ys (omega arith) (omega arith)))
  ]

  module _ (registry : LoraRegistry M F) (key : Key) where
    -- The row with the delta of its own adapter, if that touches the module.
    abbrev pub own_row : Option ℕ → X → Y → Y
    own_row none x y = y
    own_row (some a) x y = elim (get_weights registry a key) [
      | none ↦ y
      | some w ↦ add y (delta w x)
    ]

    -- What one pass does to a row, and what all passes do.
    abbrev pass : ℕ → Option ℕ → X → Y → Y
    pass a none x y = y
    pass a (some l) x y = if l == a then own_row (some l) x y else y

    abbrev passes : List ℕ → Option ℕ → X → Y → Y
    passes [] l x y = y
    passes (a ∷ ids) l x y = passes ids l x (pass a l x y)

    passes-bare : (ids : List ℕ) (x : X) (y : Y) → passes ids none x y ≡ y
    passes-bare [] x y = refl
    passes-bare (a ∷ ids) x y = passes-bare ids x y

    passes-absent :
        (l : ℕ) (ids : List ℕ) (x : X) (y : Y) → count l ids ≡ 0 → passes ids (some l) x y ≡ y
    passes-absent l [] x y e = refl
    passes-absent l (a ∷ ids) x y e = ground (arith, passes-absent l ids x y)

    passes-once :
        (l : ℕ) (ids : List ℕ) (x : X) (y : Y)
        → count l ids ≡ 1
        → passes ids (some l) x y ≡ own_row (some l) x y
    passes-once l [] x y e = absurd (omega arith)
    passes-once l (a ∷ ids) x y e =
        ground (arith, passes-absent l ids (x) (own_row (some l) x y), passes-once l ids x y)

    pass-absent :
        (a l : ℕ) (x : X) (y : Y) → get_weights registry a key ≡ none → pass a (some l) x y ≡ y
    pass-absent a l x y h = ground (arith, h)

    pass-present :
        (a l : ℕ) (w : Weights M F) (x : X) (y : Y)
        → get_weights registry a key ≡ some w
        → add_if a w (some l) x y ≡ pass a (some l) x y
    pass-present a l w x y h = ground (arith, h)

    add_adapter-rowwise :
        (a : ℕ) (ls : List (Option ℕ)) (xs : List X) (ys : List Y)
        → length ls ≡ length xs
        → length ls ≡ length ys
        → add_adapter delta add registry key ls xs a ys ≡ ok (rowwise (pass a) ls xs ys)
    unfolding add_adapter
    add_adapter-rowwise a ls xs ys e h = elim (Option-cases (get_weights registry a key)) [
      | inl none_given ↦
          rw (none_given, add_adapter)
            (ap ok (
              sym (
                rowwise-ext (pass a) (λ l x y. y) ls xs ys (λ x y. refl)
                  (λ l used x y. pass-absent a l x y none_given)
                ∙ rowwise-idle ls xs ys)))
      | inr (w, given) ↦
          rw (given, add_adapter)
            (rw (index_select-rows_with a ls xs e) (
              index_add-rows a w ls xs ys e h
              ∙ ap ok (
                  rowwise-ext (add_if a w) (pass a) ls xs ys (λ x y. refl)
                    (λ l used x y. pass-present a l w x y given))))
    ]

    add_adapters-rowwise :
        (ids : List ℕ) (ls : List (Option ℕ)) (xs : List X) (ys : List Y)
        → length ls ≡ length xs
        → length ls ≡ length ys
        → add_adapters delta add registry key ls xs ids ys ≡ ok (rowwise (passes ids) ls xs ys)
    unfolding add_adapters
    add_adapters-rowwise [] ls xs ys e h = ap ok (sym (rowwise-idle ls xs ys))
    add_adapters-rowwise (a ∷ ids) ls xs ys e h =
        rw (add_adapter-rowwise a ls xs ys e h, add_adapters)
          (add_adapters-rowwise ids ls xs (rowwise (pass a) ls xs ys) e
              (h ∙ sym (length-rowwise (pass a) ls xs ys))
            ∙ ap ok (rowwise-rowwise (pass a) (passes ids) ls xs ys))

    -- For as many ids as there are rows of the input and of the output, grouping the batch by adapters,
    -- in any order that walks each of their ids as often as it is listed, gives each row its output plus
    -- the delta of its own adapter, if that touches the module, and leaves every other row as it was.
    pub apply_lora_delta-rowwise :
        (order : List ℕ → List ℕ) (ls : List (Option ℕ)) (xs : List X) (ys : List Y)
        → ((a : ℕ) (ids : List ℕ) → count a (order ids) ≡ count a ids)
        → length ls ≡ length xs
        → length ls ≡ length ys
        → apply_lora_delta delta add order xs ys (some ls) (some registry) key
          ≡ ok (rowwise own_row ls xs ys)
    unfolding apply_lora_delta
    apply_lora_delta-rowwise order ls xs ys walk e h =
        let ids = order (unique_ids ls []) in
        add_adapters-rowwise ids ls xs ys e h
        ∙ ap ok (
            rowwise-ext (passes ids) own_row ls xs ys (passes-bare ids) (λ a used x y.
              passes-once a ids x y
                (walk a (unique_ids ls []) ∙ count-unique_ids a ls [] ∙ rw used refl)))
