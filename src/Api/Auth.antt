-- ===== src/Api/Auth.antt =====
-- APIKeyAuthMiddleware of src/wllm/api/auth.py.
pub mod Gate
use w_llm.Base.{
  ℕ, Bool, true, false, ◌||◌, not, List, [], ◌∷◌, length, drop, list_beq, if◌then◌else◌,
}
use w_llm.Api.StopStrings.{Text}
use w_llm.Api.RateLimit.{Request, starts_with, bearer, v1_path}

-- t.removeprefix(prefix)
unfoldable pub remove_prefix : Text → Text → Text
remove_prefix prefix t = if starts_with prefix t then drop (length prefix) t else t

-- key in self.valid_keys
unfoldable pub valid : Text → List Text → Bool
valid key [] = false
valid key (k ∷ ks) = list_beq k key || valid key ks

-- Whether the request is passed on; otherwise it is answered with the status 401.
unfoldable pub passes : List Text → Request → Bool
unfolding remove_prefix valid
passes valid_keys r =
    if not (starts_with v1_path r.path)
    then true
    else (if not (starts_with bearer r.authorization)
          || not (valid (remove_prefix bearer r.authorization) valid_keys)
        then false
        else true)
