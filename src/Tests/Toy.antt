-- ===== src/Tests/Toy.antt =====
-- A memory that keeps the laws of `Storage`: a tensor is a function of block and slot.
use w_llm.Base.{
  ℕ, zero, suc, ◌+◌, ◌≤◌, ◌≡◌, ◌≢◌, refl, ◌∙◌, sym, ap, ◌&&◌, Option, none, some, List, [], ◌∷◌,
  length, get_or, get_or_of_get_elem?, get_elem?, count, ◌==◌, if◌then◌else◌, arith,
}
use w_llm.Kv.Storage.{Storage}

abbrev pub Mem₂ : Type 0
Mem₂ = ℕ → ℕ → ℕ

abbrev pub put_rows : List ℕ → Mem₂ → ℕ → Mem₂ → Mem₂
put_rows [] f i t = t
put_rows (b ∷ bs) f i t = put_rows bs f (i + 1) (λ c s. if b == c then f i s else t c s)

pub put_rows_ne :
    (idx : List ℕ) (f : Mem₂) (i : ℕ) (t : Mem₂) (b s : ℕ)
    → count b idx ≡ 0
    → put_rows idx f i t b s ≡ t b s
put_rows_ne [] f i t b s h = refl
put_rows_ne (c ∷ bs) f i t b s h = put_rows_ne bs f (i + 1) _ b s (ground arith) ∙ ground arith

pub count_pos : (bs : List ℕ) (i : ℕ) (b : ℕ) → get_elem? bs i ≡ some b → 1 ≤ count b bs
count_pos [] i b h = cc
count_pos (c ∷ bs) zero b h = ground arith
count_pos (c ∷ bs) (suc i) b h = ground (arith, count_pos bs i b h)

pub put_rows_self :
    (idx : List ℕ) (f : Mem₂) (i : ℕ) (t : Mem₂) (j b s : ℕ)
    → ((c : ℕ) → count c idx ≤ 1)
    → get_elem? idx j ≡ some b
    → put_rows idx f i t b s ≡ f (i + j) s
put_rows_self [] f i t j b s once h = cc
put_rows_self (c ∷ bs) f i t zero b s once h =
    put_rows_ne bs f (i + 1) _ b s (ground (arith, once b)) ∙ ground arith
put_rows_self (c ∷ bs) f i t (suc j) b s once h =
    put_rows_self bs f (i + 1) _ j b s (λ x. ground (arith, once x)) h ∙ ground arith

unfoldable pub scatter : Mem₂ → List ℕ → ℕ × Mem₂ → Option Mem₂
scatter t idx h = if h.0 == length idx then some (put_rows idx h.1 0 t) else none

pub scatter_fits :
    (t : Mem₂) (idx : List ℕ) (h : ℕ × Mem₂)
    → h.0 ≡ length idx
    → (t' : Mem₂) × (scatter t idx h ≡ some t')
unfolding scatter
scatter_fits t idx h e = (put_rows idx h.1 0 t, ground arith)

pub scatter_shape :
    (t : Mem₂) (idx : List ℕ) (h : ℕ × Mem₂) → h.0 ≢ length idx → h.0 ≢ 1 → scatter t idx h ≡ none
unfolding scatter
scatter_shape t idx h e _ = ground arith

pub scatter_run :
    (t t' : Mem₂) (idx : List ℕ) (h : ℕ × Mem₂)
    → scatter t idx h ≡ some t'
    → put_rows idx h.1 0 t ≡ t'
unfolding scatter
scatter_run t t' idx h e = ground arith

abbrev pub toy : Storage Mem₂ (ℕ × Mem₂) ℕ
unfolding scatter
toy = record {
  zeros = λ _ _ b s. 0;
  read = λ t b s. t b s;
  write = λ t b s v c u. if b == c && s == u then v else t c u;
  gather = λ t idx. (length idx, λ i s. t (get_or idx i 0) s);
  scatter = scatter;
  rows = λ h. h.0;
  row = λ h i s. h.1 i s;
  read-write = λ t b s c u v. refl;
  rows-gather = λ t idx. refl;
  row-gather = λ t idx i b s e. ap (λ x. t x s) (get_or_of_get_elem? idx i 0 e);
  scatter_fits = scatter_fits;
  scatter_shape = scatter_shape;
  read-scatter = λ t t' idx h i b s once fits e at.
      ap (λ x. x b s) (sym (scatter_run t t' idx h e))
      ∙ put_rows_self idx h.1 0 t i b s once at
      ∙ ap (λ n. h.1 n s) (omega arith);
  read-scatter_ne = λ t t' idx h b s e out.
      ap (λ x. x b s) (sym (scatter_run t t' idx h e)) ∙ put_rows_ne idx h.1 0 t b s out;
}
