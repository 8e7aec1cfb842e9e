-- ===== src/Kv/Swap.antt =====
-- The CPU swap of KVCacheManager in src/wllm/engine/kv_cache.py.
use w_llm.Base.{ℕ, zero, suc, ◌+◌, ◌-◌, ◌/◌, Bool, true, false, none, some, List, [], ◌∷◌}
use w_llm.Base.Int.{ℤ, int_eq}
use w_llm.Base.Dict.{get, put, remove}
use w_llm.Base.Outcome.{Act, Result, ok, err, key_error, shape_mismatch, ◌>>=◌, ◌>>◌, pure}
use w_llm.Kv.Allocator.{allocate}
use w_llm.Kv.Storage.{Storage}
use w_llm.Kv.Manager.{Manager, SequenceState, on_allocator, pop_state, put_state, free_blocks}

-- How many blocks hold n tokens.
abbrev pub blocks_for : ℕ → ℕ → ℕ
blocks_for block_size n = (n + block_size - 1) / block_size

module _ {T B V : Type 0} (st : Storage T B V) where
  -- The host copies, layer by layer.
  unfoldable pub snapshot : List ℕ → List T → List T → List (B × B)
  snapshot idx (k ∷ ks) (v ∷ vs) = (st.gather k idx, st.gather v idx) ∷ snapshot idx ks vs
  snapshot idx ks vs = []

  abbrev pub save_snapshot : ℤ → SequenceState → Act (Manager T B) (Unit {0})
  save_snapshot id s m = (
    ok tt,
    record m {
      swapped_kv = put m.swapped_kv id (snapshot s.block_table m.k_caches m.v_caches);
      swapped_context_len = put m.swapped_context_len id s.context_len;
    },
  )

  unfoldable pub swap_out : ℤ → Act (Manager T B) (Unit {0})
  swap_out id = do s ← pop_state id; save_snapshot id s; free_blocks s.block_table

  -- Writes the copies back; what was written before a refusal stays.
  unfoldable pub restore :
      List ℕ → List (B × B) → List T → List T → Result (Unit {0}) × List T × List T
  restore idx ((k', v') ∷ copies) (k ∷ ks) (v ∷ vs) = elim (st.scatter k idx k') [
    | none ↦ (err shape_mismatch, k ∷ ks, v ∷ vs)
    | some k₁ ↦ elim (st.scatter v idx v') [
      | none ↦ (err shape_mismatch, k₁ ∷ ks, v ∷ vs)
      | some v₁ ↦ let (r, ks₁, vs₁) = restore idx copies ks vs in (r, k₁ ∷ ks₁, v₁ ∷ vs₁)
    ]
  ]
  restore idx copies ks vs = (ok tt, ks, vs)

  abbrev pub restore_caches : List ℕ → List (B × B) → Act (Manager T B) (Unit {0})
  restore_caches idx copies m =
      let (r, ks, vs) = restore idx copies m.k_caches m.v_caches in
      (r, record m { k_caches = ks; v_caches = vs })

module _ {T B : Type 0} where
  -- [self.allocator.allocate() for _ in range(n)]
  unfoldable pub allocate_all : ℕ → Act (Manager T B) (List ℕ)
  allocate_all zero = pure []
  allocate_all (suc n) = do b ← on_allocator allocate; bs ← allocate_all n; pure (b ∷ bs)

  abbrev pub pop_context_len : ℤ → Act (Manager T B) ℕ
  pop_context_len id m = elim (get m.swapped_context_len id) [
    | none ↦ (err key_error, m)
    | some n ↦ (ok n, record m { swapped_context_len = remove m.swapped_context_len id })
  ]

  abbrev pub pop_snapshot : ℤ → Act (Manager T B) (List (B × B))
  pop_snapshot id m = elim (get m.swapped_kv id) [
    | none ↦ (err key_error, m)
    | some copies ↦ (ok copies, record m { swapped_kv = remove m.swapped_kv id })
  ]

  unfoldable pub discard_swapped : ℤ → Act (Manager T B) (Unit {0})
  discard_swapped id m = (
    ok tt,
    record m {
      swapped_kv = remove m.swapped_kv id;
      swapped_context_len = remove m.swapped_context_len id;
    },
  )

  unfoldable pub is_swapped : ℤ → Manager T B → Bool
  is_swapped id m = elim (get m.swapped_kv id) [ none ↦ false | some _ ↦ true ]

module _ {T B V : Type 0} (st : Storage T B V) where
  unfoldable pub swap_in : ℤ → Act (Manager T B) (Unit {0})
  swap_in id m =
      (do
        context_len ← pop_context_len id
        copies ← pop_snapshot id
        block_table ← allocate_all (blocks_for m.block_size context_len)
        restore_caches st block_table copies
        put_state id (record { block_table = block_table; context_len = context_len }))
        m
