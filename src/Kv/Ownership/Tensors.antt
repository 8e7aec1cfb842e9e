-- ===== src/Kv/Ownership/Tensors.antt =====
-- Operations of KVCacheManager (src/wllm/engine/kv_cache.py) that leave the tensors as they are.
use w_llm.Base.{
  ℕ, zero, suc, ◌/◌, ◌≡◌, refl, ◌∙◌, inl, inr, Option, none, some, List, [], ◌∷◌, length, take,
  drop, Bool-cases, Option-cases, nat_eq,
}
use w_llm.Base.Int.{ℤ, int_eq}
use w_llm.Base.Dict.{get}
use w_llm.Kv.Prefix.{register_block, register_blocks, register_prefix_blocks}
use w_llm.Base.Outcome.{Result-cases}
use w_llm.Kv.Allocator.{add_ref}
use w_llm.Kv.Manager.{Manager, SequenceState, add_refs, create_sequence_from_prefix, state_of}

module _ {T B : Type 0} where
  -- References leave the tensors as they are.
  add_refs_tensors :
      (bs : List ℕ) (m : Manager T B)
      → ((add_refs bs m).1.k_caches ≡ m.k_caches) × ((add_refs bs m).1.v_caches ≡ m.v_caches)
  unfolding add_refs
  add_refs_tensors [] m = (refl, refl)
  add_refs_tensors (b ∷ bs) m = elim (Result-cases (add_ref b m.allocator).0) [
    | inl (u, e) ↦ rw e (add_refs_tensors bs _)
    | inr (x, e) ↦ rw e (refl, refl)
  ]

  pub create_sequence_from_prefix_tensors :
      (m : Manager T B) (id : ℤ) (bs : List ℕ)
      → ((create_sequence_from_prefix id bs m).1.k_caches ≡ m.k_caches)
        × ((create_sequence_from_prefix id bs m).1.v_caches ≡ m.v_caches)
  unfolding create_sequence_from_prefix
  create_sequence_from_prefix_tensors m id bs = elim (Result-cases (add_refs bs m).0) [
    | inl (u, e) ↦ rw e (add_refs_tensors bs m)
    | inr (x, e) ↦ rw e (add_refs_tensors bs m)
  ]

  register_block_tensors :
      (m : Manager T B) (b : ℕ) (h : ℤ) (chunk : List ℕ)
      → ((register_block b h chunk m).k_caches ≡ m.k_caches)
        × ((register_block b h chunk m).v_caches ≡ m.v_caches)
  unfolding register_block
  register_block_tensors m b h chunk = elim (Option-cases (get m.block_hash_info b)) [
    | inr (i, e) ↦ rw (e, register_block) (refl, refl)
    | inl e ↦ rw (e, register_block) (refl, refl)
  ]

module _ (hash : Option ℤ → List ℕ → ℤ) {T B : Type 0} where
  -- So does the registration of blocks.
  register_blocks_tensors :
      (n : ℕ) (parent : Option ℤ) (tokens table : List ℕ) (m : Manager T B)
      → ((register_blocks hash n parent tokens table m).1.k_caches ≡ m.k_caches)
        × ((register_blocks hash n parent tokens table m).1.v_caches ≡ m.v_caches)
  unfolding register_blocks
  register_blocks_tensors zero parent tokens table m = (refl, refl)
  register_blocks_tensors (suc n) parent tokens [] m = (refl, refl)
  register_blocks_tensors (suc n) parent tokens (b ∷ table) m =
      let h = hash parent (take m.block_size tokens) in
      let m' = register_block b h (take m.block_size tokens) m in
      let rest = register_blocks_tensors n (some h) (drop m.block_size tokens) table m' in
      let one = register_block_tensors m b h (take m.block_size tokens) in
      (rest.0 ∙ one.0, rest.1 ∙ one.1)

  pub register_prefix_blocks_tensors :
      (m : Manager T B) (id : ℤ) (s : SequenceState) (tokens : List ℕ)
      → get m.sequences id ≡ some s
      → ((register_prefix_blocks hash id tokens m).1.k_caches ≡ m.k_caches)
        × ((register_prefix_blocks hash id tokens m).1.v_caches ≡ m.v_caches)
  unfolding register_prefix_blocks
  register_prefix_blocks_tensors m id s tokens e = elim (Bool-cases m.enable_prefix_caching) [
    | inr off ↦ simp off (refl, refl)
    | inl on ↦ simp on (
        rw (e, state_of)
          (register_blocks_tensors (length tokens / m.block_size) none tokens s.block_table m))
  ]
