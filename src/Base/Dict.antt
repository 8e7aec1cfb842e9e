-- ===== src/Base/Dict.antt =====
-- Python's dict: keys in insertion order, an assignment replaces in place.
use Prim.Native.Nat.{ℕ, ◌+◌, ◌≤◌}
use mathlib.Core.Path.{◌≡◌, refl}
use mathlib.Core.Option.{Option, none, some}
use mathlib.Core.List.{List, [], ◌∷◌}
use native.Mathlib.Omega.{arith}
use w_llm.Base.Tests.{Eq, if◌then◌else◌}

abbrev pub Dict {ℓ κ} : Type ℓ → Type κ → Type (ℓ ⊔ κ)
Dict K V = List (K × V)

module _ {ℓ κ} {K : Type ℓ} {V : Type κ} ⦃e : Eq K⦄ where
  -- d.get(k)
  unfoldable pub get : Dict K V → K → Option V
  get [] k = none
  get ((j, v) ∷ d) k = if e.beq j k then some v else get d k

  -- d[k] = v
  unfoldable pub put : Dict K V → K → V → Dict K V
  put [] k v = (k, v) ∷ []
  put ((j, w) ∷ d) k v = if e.beq j k then (j, v) ∷ d else (j, w) ∷ put d k v

  -- del d[k]
  unfoldable pub remove : Dict K V → K → Dict K V
  remove [] k = []
  remove ((j, v) ∷ d) k = let rest = remove d k in if e.beq j k then rest else (j, v) ∷ rest

  pub get-put :
      (d : Dict K V) (k j : K) (v : V) → get (put d k v) j ≡ (if e.beq k j then some v else get d j)
  unfolding get put
  get-put [] k j v = refl
  get-put ((i, w) ∷ d) k j v =
      ground (arith, get-put d k j v, e.beq_iff i k, e.beq_iff i j, e.beq_iff k j)

  pub get-remove :
      (d : Dict K V) (k j : K) → get (remove d k) j ≡ (if e.beq k j then none else get d j)
  unfolding get remove
  get-remove [] k j = ground arith
  get-remove ((i, w) ∷ d) k j =
      ground (arith, get-remove d k j, e.beq_iff i k, e.beq_iff i j, e.beq_iff k j)

  -- No key stands twice.
  abbrev pub Distinct : Dict K V → Type κ
  Distinct [] = Unit
  Distinct ((k, v) ∷ d) = (get d k ≡ none) × Distinct d

  pub put-Distinct : (d : Dict K V) (k : K) (v : V) → Distinct d → Distinct (put d k v)
  unfolding put get
  put-Distinct [] k v h = (refl, tt)
  put-Distinct ((j, w) ∷ d) k v h =
      ground (arith, put-Distinct d k v h.1, get-put d k j v, e.beq_iff k j, e.beq_iff j k)

  pub remove-Distinct : (d : Dict K V) (k : K) → Distinct d → Distinct (remove d k)
  unfolding remove get
  remove-Distinct [] k h = tt
  remove-Distinct ((j, w) ∷ d) k h = ground (arith, remove-Distinct d k h.1, get-remove d k j)

  pub remove_absent : (d : Dict K V) (k : K) → get d k ≡ none → remove d k ≡ d
  unfolding remove get
  remove_absent [] k h = refl
  remove_absent ((j, w) ∷ d) k h = ground (arith, remove_absent d k)

  -- The sum of a weight over the values.
  unfoldable pub total : (V → ℕ) → Dict K V → ℕ
  total f [] = 0
  total f ((k, v) ∷ d) = f v + total f d

  pub total-put_new :
      (f : V → ℕ) (d : Dict K V) (k : K) (v : V)
      → get d k ≡ none
      → total f (put d k v) ≡ total f d + f v
  unfolding get put total
  total-put_new f [] k v h = omega arith
  total-put_new f ((j, w) ∷ d) k v h = ground (arith, total-put_new f d k v)

  pub total-put_old :
      (f : V → ℕ) (d : Dict K V) (k : K) (v w : V)
      → get d k ≡ some w
      → total f (put d k v) + f w ≡ total f d + f v
  unfolding get put total
  total-put_old f [] k v w h = cc
  total-put_old f ((j, u) ∷ d) k v w h = ground (arith, total-put_old f d k v w)

  pub total-remove :
      (f : V → ℕ) (d : Dict K V) (k : K) (w : V)
      → Distinct d
      → get d k ≡ some w
      → total f (remove d k) + f w ≡ total f d
  unfolding get remove total
  total-remove f [] k w h g = cc
  total-remove f ((j, u) ∷ d) k w h g =
      ground (arith, total-remove f d k w h.1, remove_absent d k, e.beq_iff j k)

  pub weight-le-total :
      (f : V → ℕ) (d : Dict K V) (k : K) (w : V) → get d k ≡ some w → f w ≤ total f d
  unfolding get total
  weight-le-total f [] k w g = cc
  weight-le-total f ((j, u) ∷ d) k w g = ground (arith, weight-le-total f d k w)
