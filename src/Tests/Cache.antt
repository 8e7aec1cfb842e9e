-- ===== src/Tests/Cache.antt =====
-- The cache of src/wllm/engine/kv_cache.py with one layer and four blocks of two slots.
use w_llm.Base.{
  ℕ, ◌+◌, ◌<◌, ◌≡◌, refl, true, some, none, List, [], ◌∷◌, arith, length, Option, ap, subst, ◌*◌,
}
use w_llm.Base.Int.{ℤ, pos, negsuc, int_eq}
use w_llm.Base.Dict.{get, put, remove}
use w_llm.Base.Outcome.{ok, err, shape_mismatch}
use w_llm.Kv.Allocator.{allocate, num_free, free}
use w_llm.Kv.Manager.{
  Manager, SequenceState, init, create_sequence, create_sequence_from_prefix, free_sequence,
  free_blocks, free_block, forget,
}
use w_llm.Kv.Prefix.{
  match_prefix, match_blocks, full_blocks, register_prefix_blocks, register_blocks, register_block,
}
use w_llm.Kv.Slots.{reserve, advance, rollback}
use w_llm.Kv.Swap.{swap_out, swap_in}
use w_llm.Kv.Ownership.{
  Inv, init-Inv, create_sequence-Inv, advance-Inv, rollback-Inv, free_sequence-Inv, started_at,
}
use w_llm.Kv.Ownership.Reserve.{Reserved, reserve-Reserved}
use w_llm.Kv.Ownership.Swap.{SwappedOut, SwappedIn, swap_out-SwappedOut, swap_in-swap_out}
use w_llm.Kv.Ownership.Prefix.{
  Chain, register_prefix_blocks-Inv, match_prefix-create, match_prefix-Chain,
}
use w_llm.Kv.Ownership.Spare.{swap_in-refused}
use w_llm.Tests.Toy.{Mem₂, toy}

abbrev pub ToyManager : Type 0
ToyManager = Manager Mem₂ (ℕ × Mem₂)

-- A new cache, then with an empty sequence 7, then with five tokens reserved for it, then held.
abbrev pub fresh : ToyManager
fresh = init toy 1 4 2 true

abbrev started : ToyManager
started = (create_sequence (pos 7) fresh).1

abbrev reserved : ToyManager
reserved = (reserve (pos 7) 3 started).1

abbrev pub seven : SequenceState
seven = record { block_table = 3 ∷ 2 ∷ []; context_len = 3 }

abbrev pub holding : SequenceState → ToyManager
holding s = record {
  block_size = 2;
  enable_prefix_caching = true;
  allocator = record { num_blocks = 4; free_blocks = 1 ∷ 0 ∷ []; ref_counts = 0 ∷ 0 ∷ 1 ∷ 1 ∷ [] };
  k_caches = toy.zeros 4 2 ∷ [];
  v_caches = toy.zeros 4 2 ∷ [];
  sequences = (pos 7, s) ∷ [];
  hash_to_block = [];
  block_hash_info = [];
  swapped_kv = [];
  swapped_context_len = [];
}

abbrev pub filled : ToyManager
filled = holding seven

filled-run : (advance (pos 7) 3 reserved).1 ≡ filled
unfolding advance reserve create_sequence init get put allocate
filled-run = refl

started-Inv : Inv started
unfolding init get
started-Inv = create_sequence-Inv fresh (pos 7) refl (init-Inv toy 1 4 2 true)

abbrev empty_seq : SequenceState
empty_seq = record { block_table = []; context_len = 0 }

abbrev reserved_seq : SequenceState
reserved_seq = record { block_table = 3 ∷ 2 ∷ []; context_len = 0 }

reserved-found : get reserved.sequences (pos 7) ≡ some reserved_seq
unfolding reserve create_sequence init get put allocate
reserved-found = refl

started-Reserved : Reserved started (pos 7) empty_seq 2 3 0 (reserve (pos 7) 3 started)
unfolding create_sequence init get put
started-Reserved =
    reserve-Reserved started (pos 7) empty_seq 3 refl (omega arith) (omega arith) started-Inv

pub filled-Inv : Inv filled
filled-Inv =
    subst Inv filled-run
      (advance-Inv reserved (pos 7) reserved_seq 3 reserved-found started-Reserved.grown.inv)

pub filled-found : get filled.sequences (pos 7) ≡ some seven
unfolding get
filled-found = refl

-- Sequence 7 on the host.
abbrev gone : ToyManager
gone = (swap_out toy (pos 7) filled).1

filled-SwappedOut :
    ((swap_out toy (pos 7) filled).0 ≡ ok tt) × SwappedOut toy filled (pos 7) seven gone
filled-SwappedOut = swap_out-SwappedOut toy filled (pos 7) seven filled-found filled-Inv

gone-room : num_free gone.allocator ≡ 4
unfolding swap_out get put remove free_blocks free_block free forget
gone-room = refl

gone-absent : get gone.sequences (pos 7) ≡ none
unfolding get remove
gone-absent = ap (λ d. get d (pos 7)) filled-SwappedOut.1.sequences

swap_in-swap_out_example :
    ((swap_in toy (pos 7) gone).0 ≡ ok tt)
    × SwappedIn toy gone (pos 7) seven filled.k_caches filled.v_caches (swap_in toy (pos 7) gone).1
swap_in-swap_out_example =
    let out = filled-SwappedOut.1 in
    swap_in-swap_out toy filled (pos 7) seven gone filled-found filled-Inv refl refl refl
      gone-absent out.size (ap length out.k_caches) (ap length out.v_caches) refl
      (omega (arith, gone-room)) out.inv

-- Two blocks stay in the table after a rollback to two tokens.
abbrev spare_seq : SequenceState
spare_seq = record { block_table = 3 ∷ 2 ∷ []; context_len = 2 }

abbrev rolled : ToyManager
rolled = holding spare_seq

rolled-run : (rollback (pos 7) 1 filled).1 ≡ rolled
unfolding rollback get put
rolled-run = refl

rolled-Inv : Inv rolled
rolled-Inv = subst Inv rolled-run (rollback-Inv filled (pos 7) seven 1 filled-found filled-Inv)

rolled-found : get rolled.sequences (pos 7) ≡ some spare_seq
unfolding get
rolled-found = refl

abbrev rolled_gone : ToyManager
rolled_gone = (swap_out toy (pos 7) rolled).1

rolled_gone-room : num_free rolled_gone.allocator ≡ 4
unfolding swap_out get put remove free_blocks free_block free forget
rolled_gone-room = refl

rolled-SwappedOut :
    ((swap_out toy (pos 7) rolled).0 ≡ ok tt) × SwappedOut toy rolled (pos 7) spare_seq rolled_gone
rolled-SwappedOut = swap_out-SwappedOut toy rolled (pos 7) spare_seq rolled-found rolled-Inv

abbrev rolled_blocks : List ℕ
rolled_blocks = 3 ∷ 2 ∷ []

two_ne_one : ¬ (length rolled_blocks ≡ 1)
two_ne_one e = omega (arith, e)

swap_in-refused_example :
    ((swap_out toy (pos 7) rolled).0 ≡ ok tt)
    × ((swap_in toy (pos 7) rolled_gone).0 ≡ err shape_mismatch)
swap_in-refused_example =
    let out = rolled-SwappedOut.1 in
    swap_in-refused toy rolled (pos 7) spare_seq rolled_gone rolled-found rolled-Inv (omega arith)
      refl refl refl out.size (ap length out.k_caches) (ap length out.v_caches) two_ne_one
      two_ne_one (omega (arith, rolled_gone-room)) out.inv

free_sequence-Inv_example :
    ((free_sequence (pos 7) filled).0 ≡ ok tt)
    × Inv (free_sequence (pos 7) filled).1
    × ((free_sequence (pos 7) filled).1.sequences ≡ remove filled.sequences (pos 7))
free_sequence-Inv_example = free_sequence-Inv filled (pos 7) seven filled-found filled-Inv

reserve-Reserved_example : Reserved filled (pos 7) seven 2 4 3 (reserve (pos 7) 4 filled)
reserve-Reserved_example =
    reserve-Reserved filled (pos 7) seven 4 filled-found (omega arith) (omega arith) filled-Inv

swap_out-SwappedOut_example :
    ((swap_out toy (pos 7) filled).0 ≡ ok tt) × SwappedOut toy filled (pos 7) seven gone
swap_out-SwappedOut_example = swap_out-SwappedOut toy filled (pos 7) seven filled-found filled-Inv

-- Prefix caching, with a hash that adds the tokens up.
abbrev sum : List ℕ → ℕ
sum [] = 0
sum (x ∷ xs) = x + sum xs

abbrev toy_hash : Option ℤ → List ℕ → ℤ
toy_hash none ts = pos (sum ts)
toy_hash (some (pos h)) ts = pos (h + sum ts)
toy_hash (some (negsuc h)) ts = negsuc h

abbrev indexed : ToyManager
indexed = (register_prefix_blocks toy_hash (pos 7) (5 ∷ 6 ∷ 7 ∷ []) filled).1

-- The first of two whole blocks is found.
match_prefix_run : match_prefix toy_hash (5 ∷ 6 ∷ 8 ∷ 9 ∷ []) indexed ≡ ok (3 ∷ [], 2)
unfolding match_prefix register_prefix_blocks get put register_blocks register_block match_blocks
    full_blocks
match_prefix_run = refl

filled_registers :
    ((register_prefix_blocks toy_hash (pos 7) (5 ∷ 6 ∷ 7 ∷ []) filled).0 ≡ ok tt)
    × Inv (register_prefix_blocks toy_hash (pos 7) (5 ∷ 6 ∷ 7 ∷ []) filled).1
    × ((register_prefix_blocks toy_hash (pos 7) (5 ∷ 6 ∷ 7 ∷ []) filled).1.sequences
        ≡ filled.sequences)
filled_registers =
    register_prefix_blocks-Inv toy_hash filled (pos 7) seven (5 ∷ 6 ∷ 7 ∷ []) filled-found
      (omega arith) filled-Inv

indexed-absent : get indexed.sequences (pos 8) ≡ none
unfolding get
indexed-absent = ap (λ d. get d (pos 8)) filled_registers.2

indexed-size : 0 < indexed.block_size
unfolding register_prefix_blocks get register_blocks register_block
indexed-size = omega arith

match_prefix-create_example :
    (bs : List ℕ) × (match_prefix toy_hash (5 ∷ 6 ∷ 8 ∷ 9 ∷ []) indexed
      ≡ ok (bs, length bs * indexed.block_size))
    × (length bs * indexed.block_size < 4)
    × ((create_sequence_from_prefix (pos 8) bs indexed).0 ≡ ok tt)
    × Inv (create_sequence_from_prefix (pos 8) bs indexed).1
    × ((create_sequence_from_prefix (pos 8) bs indexed).1.sequences
        ≡ put indexed.sequences (pos 8) (started_at indexed bs))
    × ((create_sequence_from_prefix (pos 8) bs indexed).1.block_size ≡ indexed.block_size)
match_prefix-create_example =
    match_prefix-create toy_hash (5 ∷ 6 ∷ 8 ∷ 9 ∷ []) indexed (pos 8) indexed-absent
      filled_registers.1 indexed-size (omega arith)

match_prefix-Chain_example :
    (bs : List ℕ) × (match_prefix toy_hash (5 ∷ 6 ∷ 8 ∷ 9 ∷ []) indexed
      ≡ ok (bs, length bs * indexed.block_size))
    × (length bs * indexed.block_size < 4)
    × Chain toy_hash indexed none (5 ∷ 6 ∷ 8 ∷ 9 ∷ []) bs
match_prefix-Chain_example =
    match_prefix-Chain toy_hash (5 ∷ 6 ∷ 8 ∷ 9 ∷ []) indexed filled_registers.1 indexed-size
      (omega arith)
