-- ===== src/Base/Keeps.antt =====
-- What every call keeps, whether it returns or raises: one rule for each way to build a call.
use mathlib.Core.Path.{◌≡◌, refl}
use w_llm.Base.Tests.{if◌then◌else◌}
use mathlib.Core.Bool.{Bool, true, false}
use w_llm.Base.Outcome.{Act, Result, ok, err, Error, after, ◌>>=◌, pure, raise}

-- `m` keeps `P`.
pub record Keeps {S A : Type 0} (P : S → Type 0) (m : Act S A) : Type 0 where
  pub at : (s : S) → P s → P (m s).1

module _ {S A B : Type 0} {P : S → Type 0} where
  -- The rest of a call, where the first part may have raised.
  pub Keeps-after :
      (r : Result A) (f : A → Act S B) → ((a : A) → r ≡ ok a → Keeps P (f a)) → Keeps P (after r f)
  Keeps-after (ok a) f kf = kf a refl
  Keeps-after (err e) f kf = record { at = λ s h. h }

  pub Keeps-bind :
      {m : Act S A} {f : A → Act S B} → Keeps P m → ((a : A) → Keeps P (f a)) → Keeps P (m >>= f)
  Keeps-bind {m = m} {f = f} km kf = record {
    at = λ s h. (Keeps-after (m s).0 f λ a _. kf a).at (m s).1 (km.at s h);
  }

module _ {S A : Type 0} {P : S → Type 0} where
  pub Keeps-pure : (a : A) → Keeps P (pure a)
  Keeps-pure a = record { at = λ s h. h }

  pub Keeps-raise : (e : Error) → Keeps P (raise {A = A} e)
  Keeps-raise e = record { at = λ s h. h }

  -- A value or an exception that is computed already.
  pub Keeps-result : (r : Result A) → Keeps P (λ s. (r, s))
  Keeps-result r = record { at = λ s h. h }

  -- A body that reads the state first.
  pub Keeps-read : (m : S → Act S A) → ((s : S) → Keeps P (m s)) → Keeps P (λ s. m s s)
  Keeps-read m k = record { at = λ s h. (k s).at s h }

  pub Keeps-if : (b : Bool) (m n : Act S A) → Keeps P m → Keeps P n → Keeps P (if b then m else n)
  Keeps-if true m n km kn = km
  Keeps-if false m n km kn = kn

-- A test between two results that are computed already.
pub if-Keeps :
    {S A : Type 0} (P : S → Type 0) (b : Bool) (x y : Result A × S)
    → P x.1
    → P y.1
    → P (if b then x else y).1
if-Keeps P true x y px py = px
if-Keeps P false x y px py = py

pub ruleset keeps_rules = (Keeps-pure, Keeps-raise, Keeps-result, Keeps-if, Keeps-bind)
