-- ===== src/Kv/Ownership/Spare.antt =====
-- A block table longer than its context needs, swapped out by src/wllm/engine/kv_cache.py, cannot be
-- swapped in: the copy has more blocks than `swap_in` allocates.
use w_llm.Base.{ℕ, ◌≤◌, ◌<◌, ◌≡◌, ◌≢◌, ◌∙◌, sym, ap, some, List, ◌∷◌, length, arith}
use w_llm.Base.Int.{ℤ, int_eq}
use w_llm.Base.Dict.{get, remove}
use w_llm.Base.Outcome.{ok, err, shape_mismatch}
use w_llm.Kv.Allocator.{num_free}
use w_llm.Kv.Storage.{Storage}
use w_llm.Kv.Manager.{Manager, SequenceState}
use w_llm.Kv.Swap.{
  snapshot, restore, swap_out, swap_in, allocate_all, blocks_for, pop_context_len, pop_snapshot,
}
use w_llm.Kv.Books.Loops.{allocate_all-Books}
use w_llm.Kv.Ownership.{Inv, holders}
use w_llm.Kv.Ownership.Swap.{swap_out-SwappedOut}

module _ {T B V : Type 0} (st : Storage T B V) where
  restore_refused :
      (table table' : List ℕ) (ks vs ks₂ vs₂ : List T)
      → 0 < length ks
      → length vs ≡ length ks
      → length ks₂ ≡ length ks
      → length vs₂ ≡ length ks
      → length table ≢ length table'
      → length table ≢ 1
      → (restore st table' (snapshot st table ks vs) ks₂ vs₂).0 ≡ err shape_mismatch
  unfolding restore snapshot
  restore_refused table table' (k ∷ ks) (v ∷ vs) (k₂ ∷ ks₂) (v₂ ∷ vs₂) some_layer p q r other many =
      let rows = st.rows-gather k table in
      rw (
        st.scatter_shape k₂ table' (st.gather k table) (λ e. other (sym rows ∙ e))
          (λ e. many (sym rows ∙ e)))
  restore_refused table table' _ _ _ _ some_layer p q r other many = absurd (omega arith)

  -- A sequence with spare blocks, and more than one block, is swapped out without complaint; the
  -- swap in that follows raises the shape mismatch.
  pub swap_in-refused :
      (m : Manager T B) (id : ℤ) (s : SequenceState) (m' : Manager T B)
      → get m.sequences id ≡ some s
      → Inv m
      → 0 < length m.k_caches
      → length m.v_caches ≡ length m.k_caches
      → get m'.swapped_kv id ≡ get (swap_out st id m).1.swapped_kv id
      → get m'.swapped_context_len id ≡ get (swap_out st id m).1.swapped_context_len id
      → m'.block_size ≡ m.block_size
      → length m'.k_caches ≡ length m.k_caches
      → length m'.v_caches ≡ length m.k_caches
      → length s.block_table ≢ blocks_for m.block_size s.context_len
      → length s.block_table ≢ 1
      → blocks_for m.block_size s.context_len ≤ num_free m'.allocator
      → Inv m'
      → ((swap_out st id m).0 ≡ ok tt) × ((swap_in st id m').0 ≡ err shape_mismatch)
  unfolding swap_in
  swap_in-refused m id s m' e v some_layer layers copies context size q r spare many room v' =
      let (gone, out) = swap_out-SwappedOut st m id s e v in
      let n : ℕ = blocks_for m'.block_size s.context_len in
      let same : n ≡ blocks_for m.block_size s.context_len =
        ap (λ k. blocks_for k s.context_len) size in
      let m₁ : Manager T B = record m' {
        swapped_context_len = remove m'.swapped_context_len id;
        swapped_kv = remove m'.swapped_kv id;
      } in
      let (table, done, long, _, _, frame) =
        allocate_all-Books m₁ (holders m'.sequences) n
          (record { owned = v'.books.owned; indexed = v'.books.indexed; live = v'.books.live })
          (omega (arith, same, room)) in
      let m₂ = (allocate_all n m₁).1 in
      let refused =
        restore_refused s.block_table table m.k_caches m.v_caches m₂.k_caches m₂.v_caches some_layer
          layers (ap length frame.k_caches ∙ q) (ap length frame.v_caches ∙ r)
          (λ x. spare (x ∙ long ∙ same)) many in
      (
        gone,
        rw (context ∙ out.context, pop_context_len)
            (rw (copies ∙ out.copies, pop_snapshot) (rw done (rw refused))),
      )
