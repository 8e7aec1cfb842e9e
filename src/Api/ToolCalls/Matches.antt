-- ===== src/Api/ToolCalls/Matches.antt =====
-- The search for tool calls (src/wllm/api/tool_calls.py) ends before its fuel does.
use w_llm.Base.{
  ℕ, zero, suc, ◌+◌, ◌≤◌, ◌≡◌, refl, ap, ◌∙◌, inl, inr, [], ◌∷◌, length, length-drop, take, drop,
  arith, Option-cases,
}
use w_llm.Api.StopStrings.{Text, find}
use w_llm.Api.ToolCalls.{Json, open_tag, close_tag, strip, matches_from, matches}

module _ {J : Type 0} (json : Json J) where
  matches_from-suc :
      (fuel start : ℕ) (t : Text)
      → length t ≤ fuel
      → matches_from json (suc fuel) start t ≡ matches_from json fuel start t
  unfolding matches_from find
  matches_from-suc zero start [] h = refl
  matches_from-suc zero start (c ∷ t) h = absurd (omega arith)
  matches_from-suc (suc fuel) start t h = elim (Option-cases (find open_tag t)) [
    | inl e ↦ rw (e, matches_from) refl
    | inr (i, e) ↦
        let inside = drop (i + length open_tag) t in
        elim (Option-cases (find close_tag inside)) [
          | inl g ↦ rw (e, matches_from) (rw g refl)
          | inr (j, g) ↦
              let rest = drop (j + length close_tag) inside in
              let shorter : length rest ≤ fuel = omega (
                arith,
                h,
                length-drop (j + length close_tag) inside,
                length-drop (i + length open_tag) t,
              ) in
              rw (e, matches_from)
                (rw g (
                  ap (λ ms. (start + i, strip json (take j inside)) ∷ ms)
                    (matches_from-suc fuel (start + i + length open_tag + j + length close_tag) rest
                      shorter)))
        ]
  ]

  -- The length of a text is enough fuel to find every tool call in it: more fuel finds no others.
  pub matches_from-matches :
      (t : Text) (more : ℕ) → matches_from json (more + length t) 0 t ≡ matches json t
  matches_from-matches t zero = ap (λ n. matches_from json n 0 t) (omega arith)
  matches_from-matches t (suc more) =
      let e : suc more + length t ≡ suc (more + length t) = omega arith in
      ap (λ n. matches_from json n 0 t) e
      ∙ matches_from-suc (more + length t) 0 t (omega arith)
      ∙ matches_from-matches t more
