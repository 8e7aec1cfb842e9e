-- ===== src/Base/Outcome.antt =====
-- What a Python call leaves behind: a value or an exception, and the state as it then is. What was
-- written before a raise stays written.
use mathlib.Core.Path.{◌≡◌, refl}
use mathlib.Core.Logic.{◌⊎◌, inl, inr}

pub data Error : Type 0 where
  out_of_memory key_error index_error value_error shape_mismatch runtime_error assertion_error
        not_implemented zero_division attribute_error :
      Error

pub data Result {ℓ} (A : Type ℓ) : Type ℓ where
  ok : A → Result A
  err : Error → Result A

abbrev pub Act {ℓ κ} : Type ℓ → Type κ → Type (ℓ ⊔ κ)
Act S A = S → Result A × S

module _ {ℓ κ μ} {S : Type ℓ} {A : Type κ} {B : Type μ} where
  abbrev pub after : Result A → (A → Act S B) → Act S B
  after (ok a) f s = f a s
  after (err e) f s = (err e, s)

  infixl 5 ◌>>=◌
  abbrev pub ◌>>=◌ : Act S A → (A → Act S B) → Act S B
  ◌>>=◌ m f s = after (m s).0 f (m s).1

module _ {ℓ κ} {S : Type ℓ} {A : Type κ} where
  infixl 5 ◌>>◌
  abbrev pub ◌>>◌ : Act S (Unit {0}) → Act S A → Act S A
  m >> k = m >>= λ _. k

  abbrev pub pure : A → Act S A
  pure a s = (ok a, s)

  abbrev pub raise : Error → Act S A
  raise e s = (err e, s)

-- The call returned.
abbrev pub Returned {ℓ} : {A : Type ℓ} → Result A → Type 0
Returned (ok a) = Unit
Returned (err e) = ⊥

pub Result-cases {ℓ} :
    {A : Type ℓ} (r : Result A) → ((a : A) × (r ≡ ok a)) ⊎ ((e : Error) × (r ≡ err e))
Result-cases (ok a) = inl (a, refl)
Result-cases (err e) = inr (e, refl)

pub ok-inj {ℓ} : {A : Type ℓ} {a b : A} → ok a ≡ ok b → a ≡ b
ok-inj e = cc

pub ok_not_err {ℓ} : {A : Type ℓ} {a : A} {e : Error} → ¬ (err e ≡ ok a)
ok_not_err = cc
