-- ===== src/Kv/Allocator.antt =====
-- BlockAllocator of src/wllm/engine/kv_cache.py. The end of Python's `free_blocks`, where it pops and
-- appends, is the head of the list here.
pub mod Owned
use w_llm.Base.{
  ℕ, zero, suc, ◌+◌, ◌-◌, Bool, true, false, none, some, List, [], ◌∷◌, length, get_elem?, set,
  replicate, ltb, leb, if◌then◌else◌,
}
use w_llm.Base.Outcome.{Act, ok, err, out_of_memory, index_error, ◌>>=◌, ◌>>◌, pure}

pub record Allocator : Type 0 where
  pub num_blocks : ℕ
  pub free_blocks : List ℕ
  pub ref_counts : List ℕ

-- list(range(n)), its end first.
unfoldable pub countdown : ℕ → List ℕ
countdown zero = []
countdown (suc n) = n ∷ countdown n

unfoldable pub init : ℕ → Allocator
unfolding countdown
init n = record { num_blocks = n; free_blocks = countdown n; ref_counts = replicate n 0 }

abbrev pub num_free : Allocator → ℕ
num_free a = length a.free_blocks

-- self.ref_counts[block_id], read and written.
abbrev get_ref : ℕ → Act Allocator ℕ
get_ref b a = elim (get_elem? a.ref_counts b) [ none ↦ (err index_error, a) | some c ↦ (ok c, a) ]

abbrev set_ref : ℕ → ℕ → Act Allocator (Unit {0})
set_ref b v a =
    if ltb b (length a.ref_counts)
    then (ok tt, record a { ref_counts = set a.ref_counts b v })
    else (err index_error, a)

abbrev push_free : ℕ → Act Allocator (Unit {0})
push_free b a = (ok tt, record a { free_blocks = b ∷ a.free_blocks })

take_block : List ℕ → Act Allocator ℕ
take_block [] a = (err out_of_memory, a)
take_block (b ∷ rest) a = (do set_ref b 1; pure b) (record a { free_blocks = rest })

unfoldable pub allocate : Act Allocator ℕ
unfolding take_block
allocate a = take_block a.free_blocks a

unfoldable pub add_ref : ℕ → Act Allocator (Unit {0})
add_ref b = do c ← get_ref b; set_ref b (c + 1)

-- `true` if this was the last reference. A count below 1 falls to -1 in Python and to 0 here; the
-- test `<= 0` and the reset that follows do not tell the two apart.
unfoldable pub free : ℕ → Act Allocator Bool
free b = do
  c ← get_ref b
  set_ref b (c - 1)
  left ← get_ref b
  if leb left 0 then (do set_ref b 0; push_free b; pure true) else pure false
