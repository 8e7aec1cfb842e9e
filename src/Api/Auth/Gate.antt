-- ===== src/Api/Auth/Gate.antt =====
-- Which requests src/wllm/api/auth.py lets through.
use w_llm.Base.{
  ℕ, zero, suc, ◌≡◌, refl, ◌∙◌, sym, ap, Bool, true, false, not, ◌||◌, List, [], ◌∷◌, ◌++◌, length,
  take, drop, list_beq, list_beq→eq, if◌then◌else◌, arith, Bool-cases, ◌⊎◌, inl, inr,
}
use w_llm.Api.StopStrings.{Text}
use w_llm.Api.RateLimit.{Request, starts_with, bearer, v1_path}
use w_llm.Api.Auth.{passes, valid, remove_prefix}

rejoin : (n : ℕ) (t : Text) → take n t ++ drop n t ≡ t
rejoin zero t = refl
rejoin (suc n) [] = refl
rejoin (suc n) (c ∷ cs) = ap (◌∷◌ c) (rejoin n cs)

valid-holds :
    (key : Text) (keys : List Text)
    → valid key keys ≡ true
    → (before : List Text) × (after : List Text) × (keys ≡ before ++ key ∷ after)
unfolding valid
valid-holds key [] h = absurd (never h)
  where
    never : ¬ (false ≡ true)
    never e = cc
valid-holds key (k ∷ ks) h = elim (Bool-cases (list_beq k key)) [
  | inl same ↦ ([], ks, ap (λ x. x ∷ ks) (list_beq→eq k key same))
  | inr other ↦
      let (before, after, e) = valid-holds key ks (ground arith) in
      (k ∷ before, after, ap (◌∷◌ k) e)
]

opened :
    (a b c : Bool)
    → (if not a then true else (if not b || not c then false else true)) ≡ true
    → (a ≡ false) ⊎ ((b ≡ true) × (c ≡ true))
opened false b c h = inl refl
opened true true true h = inr (refl, refl)
opened true true false h = cc
opened true false c h = cc

-- A request that is let through has a path that needs no key, or its authorization header is the
-- word Bearer, a space and one of the configured keys.
pub passes-Bearer :
    (valid_keys : List Text) (r : Request)
    → passes valid_keys r ≡ true
    → (starts_with v1_path r.path ≡ false)
      ⊎ ((key : Text) × (before : List Text) × (after : List Text) × (r.authorization
            ≡ bearer ++ key)
          × (valid_keys ≡ before ++ key ∷ after))
unfolding passes remove_prefix
passes-Bearer valid_keys r h = elim (opened (starts_with v1_path r.path) _ _ h) [
  | inl free ↦ inl free
  | inr (marked, known) ↦
      let key = drop (length bearer) r.authorization in
      let same : remove_prefix bearer r.authorization ≡ key = rw marked in
      let (before, after, e) =
        valid-holds key valid_keys (sym (ap (λ k. valid k valid_keys) same) ∙ known) in
      inr (
        key,
        before,
        after,
        sym (rejoin (length bearer) r.authorization)
            ∙ ap (λ t. t ++ key) (list_beq→eq _ bearer marked),
        e,
      )
]
