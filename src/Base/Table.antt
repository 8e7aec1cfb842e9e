-- ===== src/Base/Table.antt =====
-- Lists as tables: a length, and what stands at each index.
use Prim.Native.Nat.{ℕ, zero, suc, ◌+◌, ◌-◌, ◌<◌}
use mathlib.Core.Path.{◌≡◌, refl, sym, ap, ◌∙◌}
use mathlib.Core.List.{List, [], ◌∷◌, ◌++◌, map}
use mathlib.Core.Option.{some}
use native.Mathlib.Omega.{arith}
use w_llm.Base.Tests.{ltb, if◌then◌else◌}
use w_llm.Base.Lists.{length, get_elem?, get_or, take, drop, replicate}

-- [f(x, y) for x, y in zip(xs, ys)]
module _ {A B C : Type 0} where
  abbrev pub zip_with : (A → B → C) → List A → List B → List C
  zip_with f [] ys = []
  zip_with f (x ∷ xs) [] = []
  zip_with f (x ∷ xs) (y ∷ ys) = f x y ∷ zip_with f xs ys

-- The list has the items f 0, ..., f (n - 1).
abbrev pub IsTable : {A : Type 0} → List A → ℕ → (ℕ → A) → Type 0
IsTable [] n f = n ≡ 0
IsTable (x ∷ xs) n f = (m : ℕ) × (n ≡ suc m) × (x ≡ f 0) × IsTable xs m (λ i. f (suc i))

module _ {A : Type 0} where
  pub IsTable-length : (xs : List A) (n : ℕ) (f : ℕ → A) → IsTable xs n f → length xs ≡ n
  IsTable-length [] n f t = sym t
  IsTable-length (x ∷ xs) n f (m, e, h, t) = omega (arith, IsTable-length xs m (λ i. f (suc i)) t)

  pub IsTable-get_elem? :
      (xs : List A) (n : ℕ) (f : ℕ → A)
      → IsTable xs n f
      → (i : ℕ) → i < n
      → get_elem? xs i ≡ some (f i)
  IsTable-get_elem? [] n f t i h = absurd (omega arith)
  IsTable-get_elem? (x ∷ xs) n f (m, e, h, t) zero lt = ap some h
  IsTable-get_elem? (x ∷ xs) n f (m, e, h, t) (suc i) lt =
      IsTable-get_elem? xs m (λ i. f (suc i)) t i (omega arith)

  pub IsTable-get_or : (xs : List A) (d : A) → IsTable xs (length xs) (λ i. get_or xs i d)
  IsTable-get_or [] d = refl
  IsTable-get_or (x ∷ xs) d = (length xs, refl, refl, IsTable-get_or xs d)

  pub IsTable-ext :
      (xs : List A) (n m : ℕ) (f g : ℕ → A)
      → n ≡ m
      → ((i : ℕ) → i < m → f i ≡ g i)
      → IsTable xs n f
      → IsTable xs m g
  IsTable-ext [] n m f g eq same t = omega arith
  IsTable-ext (x ∷ xs) n m f g eq same (k, e, h, t) = (
    k,
    omega arith,
    h ∙ same 0 (omega arith),
    IsTable-ext xs k k _ _ refl (λ i lt. same (suc i) (omega arith)) t,
  )

  pub IsTable-take :
      (k n : ℕ) (xs : List A) (f : ℕ → A) → IsTable xs (k + n) f → IsTable (take k xs) k f
  IsTable-take zero n xs f t = refl
  IsTable-take (suc k) n [] f t = absurd (omega arith)
  IsTable-take (suc k) n (x ∷ xs) f (m, e, h, t) = (
    k,
    refl,
    h,
    IsTable-take k n xs _ (IsTable-ext xs m (k + n) _ _ (omega arith) (λ i lt. refl) t),
  )

  pub IsTable-drop :
      (k n : ℕ) (xs : List A) (f : ℕ → A)
      → IsTable xs (k + n) f
      → IsTable (drop k xs) n (λ i. f (k + i))
  IsTable-drop zero n xs f t =
      IsTable-ext xs (0 + n) n _ _ (omega arith) (λ i lt. ap f (omega arith)) t
  IsTable-drop (suc k) n [] f t = absurd (omega arith)
  IsTable-drop (suc k) n (x ∷ xs) f (m, e, h, t) =
      IsTable-ext (drop k xs) n n _ _ refl (λ i lt. ap f (omega arith))
        (IsTable-drop k n xs _ (IsTable-ext xs m (k + n) _ _ (omega arith) (λ i lt. refl) t))

  pub IsTable-append :
      (n m : ℕ) (xs ys : List A) (f g : ℕ → A)
      → IsTable xs n f
      → IsTable ys m g
      → IsTable (xs ++ ys) (n + m) (λ i. if ltb i n then f i else g (i - n))
  IsTable-append n m [] ys f g t u = IsTable-ext ys m (n + m) _ _ (omega arith) (λ i lt. beyond i) u
    where
      beyond : (i : ℕ) → g i ≡ (if ltb i n then f i else g (i - n))
      beyond i = ground arith
  IsTable-append n m (x ∷ xs) ys f g (k, e, h, t) u = (
    k + m,
    omega arith,
    h ∙ first,
    IsTable-ext (xs ++ ys) (k + m) (k + m) _ _ refl later (IsTable-append k m xs ys _ g t u),
  )
    where
      first : f 0 ≡ (if ltb 0 n then f 0 else g (0 - n))
      first = ground arith

      later :
          (i : ℕ)
          → i < k + m
          → (if ltb i k then f (suc i) else g (i - k))
            ≡ (if ltb (suc i) n then f (suc i) else g (suc i - n))
      later i lt = ground arith

  pub IsTable-replicate : (n : ℕ) (a : A) → IsTable (replicate n a) n (λ i. a)
  IsTable-replicate zero a = refl
  IsTable-replicate (suc n) a = (n, refl, refl, IsTable-replicate n a)

module _ {A B : Type 0} (h : A → B) where
  pub IsTable-map :
      (xs : List A) (n : ℕ) (f : ℕ → A) → IsTable xs n f → IsTable (map h xs) n (λ i. h (f i))
  IsTable-map [] n f t = t
  IsTable-map (x ∷ xs) n f (m, e, p, t) = (m, e, ap h p, IsTable-map xs m _ t)

module _ {A B C : Type 0} (h : A → B → C) where
  pub IsTable-zip_with :
      (xs : List A) (ys : List B) (n : ℕ) (f : ℕ → A) (g : ℕ → B)
      → IsTable xs n f
      → IsTable ys n g
      → IsTable (zip_with h xs ys) n (λ i. h (f i) (g i))
  IsTable-zip_with [] ys n f g t u = t
  IsTable-zip_with (x ∷ xs) [] n f g t u = absurd (omega arith)
  IsTable-zip_with (x ∷ xs) (y ∷ ys) n f g (m, e, p, t) (k, e', q, u) = (
    m,
    e,
    ap (λ a. h a y) p ∙ ap (h (f 0)) q,
    IsTable-zip_with xs ys m _ _ t (IsTable-ext ys k m _ _ (omega arith) (λ i lt. refl) u),
  )
