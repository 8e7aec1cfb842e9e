-- ===== src/Api/StopStrings/Prefix.antt =====
-- What StopStringFilter of src/wllm/api/stop_strings.py yields is a beginning of the text.
use w_llm.Base.{◌≡◌, refl, true, List, [], ◌∷◌, ◌++◌, length, drop, ◌⊎◌}
use w_llm.Api.StopStrings.{Text, Outcome}

-- "".join(pieces)
abbrev pub join : List Text → Text
join [] = []
join (t ∷ ts) = t ++ join ts

pub drop-append : (s t : Text) → drop (length s) (s ++ t) ≡ t
drop-append [] t = refl
drop-append (c ∷ cs) t = drop-append cs t

-- What is yielded is a beginning of the text, and all of it if no stop string was found.
pub record Filtered (deltas : List Text) (r : Outcome) : Type 0 where
  pub left : Text
  pub begins : join r.yielded ++ left ≡ join deltas
  pub whole : (r.stopped_early ≡ true) ⊎ (r.yielded ≡ deltas)
