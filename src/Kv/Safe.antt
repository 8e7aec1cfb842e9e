-- ===== src/Kv/Safe.antt =====
-- What no call of KVCacheManager in src/wllm/engine/kv_cache.py can break, whatever it is given and
-- however it ends.
pub mod Calls
pub mod Swap
pub mod Shared
pub mod Sharing
use w_llm.Base.{
  ℕ, zero, suc, ◌+◌, ◌-◌, ◌≤◌, ◌<◌, ◌≡◌, refl, ◌∙◌, sym, ap, subst, ◌⊎◌, inl, inr, Option, none,
  some, List, [], ◌∷◌, ◌++◌, length, count, count-append, arith, Option-cases, nat_eq,
}
use w_llm.Base.Int.{ℤ, int_eq}
use w_llm.Base.Keeps.{Keeps, Keeps-bind}
use w_llm.Base.Dict.{
  Dict, get, put, remove, Distinct, put-Distinct, remove-Distinct, total, total-put_new,
  total-put_old, total-remove, weight-le-total,
}
use w_llm.Base.Outcome.{Act, ok, err, ◌>>=◌, ◌>>◌, pure}
use w_llm.Kv.Allocator.{Allocator, allocate}
use w_llm.Kv.Allocator.Owned.{allocate-Owned, bump}
use w_llm.Kv.Manager.{
  Manager, SequenceState, empty_state, create_sequence, free_sequence, free_blocks, pop_state,
  put_state, state_of, on_allocator,
}
use w_llm.Kv.Books.{Books, Books-cong, Framed}
use w_llm.Kv.Books.Loops.{free_blocks-Books, add_refs-Books, allocate_all-Books}
use w_llm.Kv.Ownership.{holders, with_tables, Inv}

-- A block table that is stored, over another one or not, where its blocks are paid for.
holders-put :
    (d : Dict ℤ SequenceState) (id : ℤ) (s : SequenceState) (b : ℕ)
    → holders (put d id s) b ≤ holders d b + count b s.block_table
holders-put d id s b = elim (Option-cases (get d id)) [
  | inl new ↦ omega (arith, total-put_new (λ x. count b x.block_table) d id s new)
  | inr (old, e) ↦ omega (arith, total-put_old (λ x. count b x.block_table) d id s old e)
]

module _ {T B : Type 0} where
  -- The books match some holders, the block tables among them. A call that raises can leave
  -- references that no table accounts for; no table is left without its references.
  pub record Safe (m : Manager T B) : Type 0 where
    pub held : ℕ → ℕ
    pub books : Books m held
    pub covered : (b : ℕ) → holders m.sequences b ≤ held b
    pub distinct : Distinct m.sequences

  -- A call that keeps this.
  abbrev pub IsSafe : {A : Type 0} → Act (Manager T B) A → Type 0
  IsSafe f = Keeps Safe f

  pub Inv-Safe : (m : Manager T B) → Inv m → Safe m
  Inv-Safe m v = record {
    held = holders m.sequences;
    books = v.books;
    covered = λ b. omega arith;
    distinct = v.distinct;
  }

  -- The tensors and the copies on the host play no part.
  pub others-Safe :
      (m : Manager T B) (ks vs : List T) (kv : Dict ℤ (List (B × B))) (lens : Dict ℤ ℕ)
      → Safe m
      → Safe
          (record m { k_caches = ks; v_caches = vs; swapped_kv = kv; swapped_context_len = lens })
  others-Safe m ks vs kv lens s = record {
    held = s.held;
    books = record { owned = s.books.owned; indexed = s.books.indexed; live = s.books.live };
    covered = s.covered;
    distinct = s.distinct;
  }

  pub put_state-Safe :
      (m : Manager T B) (id : ℤ) (s : SequenceState) (held : ℕ → ℕ)
      → Books m held
      → ((b : ℕ) → holders m.sequences b + count b s.block_table ≤ held b)
      → Distinct m.sequences
      → Safe (put_state id s m).1
  put_state-Safe m id s held k paid u = record {
    held = held;
    books = with_tables (put m.sequences id s) k;
    covered = λ b. omega (arith, holders-put m.sequences id s b, paid b);
    distinct = put-Distinct m.sequences id s u;
  }

  -- A stored table that is replaced.
  pub replace_state-Safe :
      (m : Manager T B) (id : ℤ) (s s' : SequenceState) (held : ℕ → ℕ)
      → get m.sequences id ≡ some s
      → Books m held
      → ((b : ℕ) → holders m.sequences b + count b s'.block_table ≤ held b + count b s.block_table)
      → Distinct m.sequences
      → Safe (put_state id s' m).1
  replace_state-Safe m id s s' held e k paid u = record {
    held = held;
    books = with_tables (put m.sequences id s') k;
    covered = λ b.
        omega (arith, total-put_old (λ x. count b x.block_table) m.sequences id s' s e, paid b);
    distinct = put-Distinct m.sequences id s' u;
  }

  -- The state that a call ends in, where it leaves the block tables as they were.
  pub Framed-Safe :
      (m m' : Manager T B) (held : ℕ → ℕ)
      → Framed m m'
      → Books m' held
      → ((b : ℕ) → holders m.sequences b ≤ held b)
      → Distinct m.sequences
      → Safe m'
  Framed-Safe m m' held f k paid u = record {
    held = held;
    books = k;
    covered = λ b. subst (λ d. holders d b ≤ held b) (sym f.sequences) (paid b);
    distinct = subst Distinct (sym f.sequences) u;
  }

  -- A reading of a sequence's state leaves all as it was, and a missing id raises.
  pub state_of-Keeps : {P : Manager T B → Type 0} (id : ℤ) → Keeps P (state_of id)
  state_of-Keeps id = record {
    at = λ m p. elim (Option-cases (get m.sequences id)) [
      | inl e ↦ rw (e, state_of) p
      | inr (s, e) ↦ rw (e, state_of) p
    ];
  }
