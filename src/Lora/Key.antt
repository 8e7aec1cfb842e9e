-- ===== src/Lora/Key.antt =====
-- The names of PEFT's tensors that parse_lora_key (src/wllm/engine/lora.py) reads.
use w_llm.Base.{
  ℕ, ◌≡◌, refl, ap, ◌∙◌, false, Option, some, List, [], ◌∷◌, ◌++◌, length, get_elem?-append_right,
  elem, list_beq, list_beq_self, All, arith,
}
use w_llm.Base.Int.{ℤ}
use w_llm.Base.Text.{codes, split, join_by, index_of}
use w_llm.Api.StopStrings.{Text}
use w_llm.Lora.{parse_lora_key, key_of_parts}

-- A part holds no separator.
abbrev pub IsPart : ℕ → Text → Type 0
IsPart sep p = elem sep p ≡ false

split-part : (sep : ℕ) (p : Text) → IsPart sep p → split sep p ≡ p ∷ []
split-part sep [] h = refl
split-part sep (c ∷ p) h = ground (arith, split-part sep p)

split-part_sep : (sep : ℕ) (p t : Text) → IsPart sep p → split sep (p ++ sep ∷ t) ≡ p ∷ split sep t
split-part_sep sep [] t h = ground arith
split-part_sep sep (c ∷ p) t h = ground (arith, split-part_sep sep p t)

pub split-join_by :
    (sep : ℕ) (p : Text) (ps : List Text)
    → All (IsPart sep) (p ∷ ps)
    → split sep (join_by sep (p ∷ ps)) ≡ p ∷ ps
split-join_by sep p [] h = split-part sep p h.0
split-join_by sep p (q ∷ ps) h =
    split-part_sep sep p (join_by sep (q ∷ ps)) h.0 ∙ ap (λ qs. p ∷ qs) (split-join_by sep q ps h.1)

split-join_by_parts :
    (sep : ℕ) (before : List Text) (p : Text) (ps : List Text)
    → All (IsPart sep) (before ++ p ∷ ps)
    → split sep (join_by sep (before ++ p ∷ ps)) ≡ before ++ p ∷ ps
split-join_by_parts sep [] p ps h = split-join_by sep p ps h
split-join_by_parts sep (q ∷ before) p ps h = split-join_by sep q (before ++ p ∷ ps) h

index_of-append :
    (part : Text) (before after : List Text)
    → All (λ p. list_beq p part ≡ false) before
    → index_of part (before ++ part ∷ after) ≡ some (length before)
index_of-append part [] after h = rw (list_beq_self part) refl
index_of-append part (p ∷ before) after h = rw h.0 (rw (index_of-append part before after h.1) refl)

module _ (int : Text → Option ℤ) where
  -- The key "<before>.layers.<number>.<kind>.<module>.<rest>", whose parts hold no dot and of which
  -- none before is "layers", is read as the number and the module, whatever stands before and behind.
  pub parse_lora_key-join_by :
      (before rest : List Text) (number kind name : Text) (n : ℤ)
      → let parts = before ++ codes "layers" ∷ number ∷ kind ∷ name ∷ rest in
        All (IsPart b'.') parts
        → All (λ p. list_beq p (codes "layers") ≡ false) before
        → int number ≡ some n
        → parse_lora_key int (join_by b'.' parts) ≡ some (n, name)
  unfolding parse_lora_key key_of_parts
  parse_lora_key-join_by before rest number kind name n parts_ok first parsed =
      let after = codes "layers" ∷ number ∷ kind ∷ name ∷ rest in
      ap (key_of_parts int)
        (split-join_by_parts b'.' before (codes "layers") (number ∷ kind ∷ name ∷ rest) parts_ok)
      ∙ rw
          (
            index_of-append (codes "layers") before (number ∷ kind ∷ name ∷ rest) first,
            key_of_parts,
          )
          (rw (get_elem?-append_right before after 1)
            (rw parsed (rw (get_elem?-append_right before after 3) refl)))
