-- ===== src/Api/StopStrings.antt =====
-- StopStringFilter of src/wllm/api/stop_strings.py. A string is a list of character codes; the filter
-- runs on the deltas that the wrapped generator yields, and closes it on every way out.
pub mod Prefix
use w_llm.Base.{
  ℕ, zero, suc, ◌+◌, ◌-◌, Bool, true, false, Option, none, some, List, [], ◌∷◌, ◌++◌, length, take,
  drop, list_beq, ltb, min, if◌then◌else◌,
}

abbrev pub Text : Type 0
Text = List ℕ

-- buffer.find(s): the first index at which it stands.
unfoldable pub find : Text → Text → Option ℕ
find s [] = if list_beq s [] then some 0 else none
find s (c ∷ cs) =
    let rest = find s cs in
    if list_beq (take (length s) (c ∷ cs)) s
    then some 0
    else (elim rest [ none ↦ none | some i ↦ some (suc i) ])

-- [s for s in stop_strings if s]
unfoldable pub given : List Text → List Text
given [] = []
given ([] ∷ ss) = given ss
given ((c ∷ cs) ∷ ss) = (c ∷ cs) ∷ given ss

unfoldable pub least : Option ℕ → ℕ → Option ℕ
least none n = some n
least (some m) n = some (min m n)

-- The loop over the inclusive stop strings: the least end of a match.
unfoldable pub inclusive_cut : Text → List Text → Option ℕ → Option ℕ
unfolding find least
inclusive_cut buffer [] cut = cut
inclusive_cut buffer (s ∷ ss) cut = elim (find s buffer) [
  | none ↦ inclusive_cut buffer ss cut
  | some i ↦ inclusive_cut buffer ss (least cut (i + length s))
]

-- The loop over the stop strings: the least start of a match.
unfoldable pub exclusive_cut : Text → List Text → Option ℕ → Option ℕ
unfolding find least
exclusive_cut buffer [] cut = cut
exclusive_cut buffer (s ∷ ss) cut = elim (find s buffer) [
  | none ↦ exclusive_cut buffer ss cut
  | some i ↦ exclusive_cut buffer ss (least cut i)
]

-- What was yielded, and the two flags.
pub record Outcome : Type 0 where
  pub yielded : List Text
  pub stopped_early : Bool
  pub stopped_inclusive : Bool

-- if cut > visible_so_far: yield buffer[visible_so_far:cut]
unfoldable pub last_piece : Text → ℕ → ℕ → List Text
last_piece buffer visible cut =
    if ltb visible cut then take (cut - visible) (drop visible buffer) ∷ [] else []

-- The loop over the deltas. The buffer before a delta is what has been seen so far.
unfoldable pub run : List Text → List Text → Text → List Text → Outcome
unfolding inclusive_cut exclusive_cut last_piece
run stops inclusive seen [] = record {
  yielded = [];
  stopped_early = false;
  stopped_inclusive = false;
}
run stops inclusive seen (delta ∷ deltas) =
    let buffer = seen ++ delta in
    let visible = length buffer - length delta in
    elim (inclusive_cut buffer inclusive none) [
      | some cut ↦ record {
        yielded = last_piece buffer visible cut;
        stopped_early = true;
        stopped_inclusive = true;
      }
      | none ↦ elim (exclusive_cut buffer stops none) [
        | some cut ↦ record {
          yielded = last_piece buffer visible cut;
          stopped_early = true;
          stopped_inclusive = false;
        }
        | none ↦
            let rest = run stops inclusive buffer deltas in
            record rest { yielded = delta ∷ rest.yielded }
      ]
    ]

unfoldable pub filter : List Text → List Text → List Text → Outcome
unfolding run given
filter stop_strings inclusive_stop_strings deltas =
    run (given stop_strings) (given inclusive_stop_strings) [] deltas
