-- ===== src/Kv/Manager.antt =====
-- KVCacheManager of src/wllm/engine/kv_cache.py: its state, and the life of a sequence's block table.
-- The placement of tensors on a device is not part of the state.
use w_llm.Base.{
  ℕ, ◌*◌, Bool, true, false, none, some, List, [], ◌∷◌, length, ◌==◌, if◌then◌else◌, replicate,
}
use w_llm.Base.Int.{ℤ, int_eq}
use w_llm.Base.{nat_eq}
use w_llm.Base.Dict.{Dict, get, put, remove}
use w_llm.Base.Outcome.{Act, ok, err, key_error, ◌>>=◌, ◌>>◌, pure}
use w_llm.Kv.Allocator
use w_llm.Kv.Allocator.{Allocator, add_ref, free}
use w_llm.Kv.Storage.{Storage}

pub record SequenceState : Type 0 where
  pub block_table : List ℕ
  pub context_len : ℕ

abbrev pub empty_state : SequenceState
empty_state = record { block_table = []; context_len = 0 }

pub record Manager (T B : Type 0) : Type 0 where
  pub block_size : ℕ
  pub enable_prefix_caching : Bool
  pub allocator : Allocator
  pub k_caches : List T
  pub v_caches : List T
  pub sequences : Dict ℤ SequenceState
  -- hash → block, and block → (hash, tokens)
  pub hash_to_block : Dict ℤ ℕ
  pub block_hash_info : Dict ℕ (ℤ × List ℕ)
  pub swapped_kv : Dict ℤ (List (B × B))
  pub swapped_context_len : Dict ℤ ℕ

module _ {T B V : Type 0} (st : Storage T B V) where
  unfoldable pub init : ℕ → ℕ → ℕ → Bool → Manager T B
  unfolding Allocator.init
  init num_layers num_blocks block_size caching = record {
    block_size = block_size;
    enable_prefix_caching = caching;
    allocator = Allocator.init num_blocks;
    k_caches = replicate num_layers (st.zeros num_blocks block_size);
    v_caches = replicate num_layers (st.zeros num_blocks block_size);
    sequences = [];
    hash_to_block = [];
    block_hash_info = [];
    swapped_kv = [];
    swapped_context_len = [];
  }

-- The index without its entry for a hash, if that entry names the block.
unfoldable pub unindex : ℕ → ℤ → Dict ℤ ℕ → Dict ℤ ℕ
unindex b h d = elim (get d h) [ none ↦ d | some c ↦ if c == b then remove d h else d ]

module _ {T B : Type 0} where
  -- A call of a method of `self.allocator`.
  abbrev pub on_allocator : {A : Type 0} → Act Allocator A → Act (Manager T B) A
  on_allocator f m = ((f m.allocator).0, record m { allocator = (f m.allocator).1 })

  -- self.sequences[seq_id]
  abbrev pub state_of : ℤ → Act (Manager T B) SequenceState
  state_of id m = elim (get m.sequences id) [ none ↦ (err key_error, m) | some s ↦ (ok s, m) ]

  -- self.sequences.pop(seq_id)
  abbrev pub pop_state : ℤ → Act (Manager T B) SequenceState
  pop_state id m = elim (get m.sequences id) [
    | none ↦ (err key_error, m)
    | some s ↦ (ok s, record m { sequences = remove m.sequences id })
  ]

  -- self.sequences[seq_id] = state
  abbrev pub put_state : ℤ → SequenceState → Act (Manager T B) (Unit {0})
  put_state id s m = (ok tt, record m { sequences = put m.sequences id s })

  unfoldable pub create_sequence : ℤ → Act (Manager T B) (Unit {0})
  create_sequence id = put_state id empty_state

  unfoldable pub add_refs : List ℕ → Act (Manager T B) (Unit {0})
  add_refs [] = pure tt
  add_refs (b ∷ bs) = do on_allocator (add_ref b); add_refs bs

  unfoldable pub create_sequence_from_prefix : ℤ → List ℕ → Act (Manager T B) (Unit {0})
  create_sequence_from_prefix id prefix_block_ids m =
      (do
        add_refs prefix_block_ids
        put_state id (record {
          block_table = prefix_block_ids;
          context_len = length prefix_block_ids * m.block_size;
        }))
        m

  -- A freed block's hash entry goes with it, and so does the index entry that still names it.
  unfoldable pub forget : ℕ → Manager T B → Manager T B
  unfolding unindex
  forget b m = elim (get m.block_hash_info b) [
    | none ↦ m
    | some (block_hash, _) ↦ record m {
      block_hash_info = remove m.block_hash_info b;
      hash_to_block = unindex b block_hash m.hash_to_block;
    }
  ]

  forget_if : Bool → ℕ → Act (Manager T B) (Unit {0})
  forget_if true b m = (ok tt, forget b m)
  forget_if false b m = (ok tt, m)

  unfoldable pub free_block : ℕ → Act (Manager T B) (Unit {0})
  unfolding forget_if
  free_block b = do gone ← on_allocator (free b); forget_if gone b

  unfoldable pub free_blocks : List ℕ → Act (Manager T B) (Unit {0})
  free_blocks [] = pure tt
  free_blocks (b ∷ bs) = do free_block b; free_blocks bs

  unfoldable pub free_sequence : ℤ → Act (Manager T B) (Unit {0})
  free_sequence id = do s ← pop_state id; free_blocks s.block_table
