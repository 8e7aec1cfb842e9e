-- ===== src/Base/Text.antt =====
-- Python's str as a list of character codes, and its methods.
use Prim.Native.Nat.{ℕ, zero, suc, ◌-◌}
use Prim.Native.Char.{code}
use Prim.Native.String.{String}
use mathlib.Core.Bool.{Bool}
use mathlib.Core.Option.{Option, none, some}
use mathlib.Core.List.{List, [], ◌∷◌, ◌++◌}
use w_llm.Base.Tests.{◌==◌, if◌then◌else◌, list_beq}
use w_llm.Base.Lists.{length, take, drop}

-- A literal of the source.
abbrev pub codes : String → List ℕ
codes String.[] = []
codes (String.◌∷◌ c s) = code c ∷ codes s

-- Puts a character before the first part.
abbrev pub extend_first : ℕ → List (List ℕ) → List (List ℕ)
extend_first c [] = (c ∷ []) ∷ []
extend_first c (p ∷ ps) = (c ∷ p) ∷ ps

-- t.split(sep), for a separator of one character
abbrev pub split : ℕ → List ℕ → List (List ℕ)
split sep [] = [] ∷ []
split sep (c ∷ t) = let rest = split sep t in if c == sep then [] ∷ rest else extend_first c rest

-- sep.join(parts)
abbrev pub join_by : ℕ → List (List ℕ) → List ℕ
join_by sep [] = []
join_by sep (p ∷ []) = p
join_by sep (p ∷ q ∷ ps) = p ++ sep ∷ join_by sep (q ∷ ps)

-- t.endswith(end)
abbrev pub ends_with : List ℕ → List ℕ → Bool
ends_with end t = list_beq (drop (length t - length end) t) end

-- t.replace(old, new), for an old that is not empty; `skip` characters belong to a match.
abbrev pub replace_from : ℕ → List ℕ → List ℕ → List ℕ → List ℕ
replace_from skip old new [] = []
replace_from (suc skip) old new (c ∷ t) = replace_from skip old new t
replace_from zero old new (c ∷ t) =
    let matched = replace_from (length old - 1) old new t in
    let rest = replace_from zero old new t in
    if list_beq (take (length old) (c ∷ t)) old then new ++ matched else c ∷ rest

abbrev pub replace : List ℕ → List ℕ → List ℕ → List ℕ
replace = replace_from 0

-- parts.index(part)
abbrev pub index_of : List ℕ → List (List ℕ) → Option ℕ
index_of part [] = none
index_of part (p ∷ ps) =
    let rest = index_of part ps in
    if list_beq p part then some 0 else (elim rest [ none ↦ none | some i ↦ some (suc i) ])
