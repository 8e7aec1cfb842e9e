-- ===== src/Kv/Storage.antt =====
-- What src/wllm/engine/kv_cache.py uses of PyTorch: one layer's K or V tensor `T`, a gathered copy `B`
-- of some of its blocks, and the vector `V` of one slot.
use w_llm.Base.{
  ℕ, ◌≤◌, ◌≡◌, ◌≢◌, ◌&&◌, Option, none, some, List, length, get_elem?, count, ◌==◌, if◌then◌else◌,
}

pub record Storage (T B V : Type 0) : Type 0 where
  -- torch.zeros(num_blocks, block_size, ...)
  pub zeros : ℕ → ℕ → T
  -- t[block, slot]
  pub read : T → ℕ → ℕ → V
  -- t[block, slot] = v
  pub write : T → ℕ → ℕ → V → T
  -- t[idx].cpu()
  pub gather : T → List ℕ → B
  -- t[idx] = b; `none` where PyTorch raises for the shapes
  pub scatter : T → List ℕ → B → Option T
  -- b.shape[0], and b[i, slot]
  pub rows : B → ℕ
  pub row : B → ℕ → ℕ → V
  pub read-write :
      (t : T) (b s c u : ℕ) (v : V)
      → read (write t b s v) c u ≡ (if b == c && s == u then v else read t c u)
  pub rows-gather : (t : T) (idx : List ℕ) → rows (gather t idx) ≡ length idx
  pub row-gather :
      (t : T) (idx : List ℕ) (i b s : ℕ)
      → get_elem? idx i ≡ some b
      → row (gather t idx) i s ≡ read t b s
  pub scatter_fits :
      (t : T) (idx : List ℕ) (h : B) → rows h ≡ length idx → (t' : T) × (scatter t idx h ≡ some t')
  pub scatter_shape :
      (t : T) (idx : List ℕ) (h : B) → rows h ≢ length idx → rows h ≢ 1 → scatter t idx h ≡ none
  pub read-scatter :
      (t t' : T) (idx : List ℕ) (h : B) (i b s : ℕ)
      → ((c : ℕ) → count c idx ≤ 1)
      → rows h ≡ length idx
      → scatter t idx h ≡ some t'
      → get_elem? idx i ≡ some b
      → read t' b s ≡ row h i s
  pub read-scatter_ne :
      (t t' : T) (idx : List ℕ) (h : B) (b s : ℕ)
      → scatter t idx h ≡ some t'
      → count b idx ≡ 0
      → read t' b s ≡ read t b s
