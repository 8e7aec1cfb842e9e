-- ===== src/Kv/Ownership/Grown.antt =====
-- How a block table grows in `reserve` of src/wllm/engine/kv_cache.py.
use w_llm.Base.{
  ℕ, ◌+◌, ◌≤◌, ◌<◌, ◌≡◌, refl, ◌∙◌, sym, ap, ◌⊎◌, inl, inr, some, List, [], ◌∷◌, ◌++◌, length,
  length-append, count, count-append, ◌==◌, if◌then◌else◌, arith, Bool-cases,
}
use mathlib.Core.List.{append-nil, append_assoc}
use w_llm.Base.Int.{ℤ, int_eq, int_beq_iff}
use w_llm.Base.Dict.{get, put, get-put, put-Distinct, total-put_old, weight-le-total}
use w_llm.Base.Outcome.{ok, err, out_of_memory}
use w_llm.Kv.Allocator.{Allocator, allocate, num_free}
use w_llm.Kv.Allocator.Owned.{Owned, Owned-cong, allocate-Owned, bump}
use w_llm.Kv.Manager.{Manager, SequenceState, state_of}
use w_llm.Kv.Slots.{grow}
use w_llm.Kv.Ownership.{Inv, holders, seal}

module _ {T B : Type 0} where
  -- A call that lengthened the block table of `id` by `ext`, and what it leaves alone.
  pub record Grown (m : Manager T B) (id : ℤ) (s : SequenceState) (m' : Manager T B)
      (s' : SequenceState) (ext : List ℕ) : Type 0 where
    pub states :
        (j : ℤ) → get m'.sequences j ≡ (if int_eq.beq id j then some s' else get m.sequences j)
    pub table : s'.block_table ≡ s.block_table ++ ext
    pub context : s'.context_len ≡ s.context_len
    pub paid : num_free m'.allocator + length ext ≡ num_free m.allocator
    pub size : m'.block_size ≡ m.block_size
    pub inv : Inv m'
    pub keys : m'.k_caches ≡ m.k_caches
    pub values : m'.v_caches ≡ m.v_caches
    pub once : ((b : ℕ) → count b s.block_table ≤ 1) → (b : ℕ) → count b s'.block_table ≤ 1

  pub Grown-refl :
      (m : Manager T B) (id : ℤ) (s : SequenceState)
      → get m.sequences id ≡ some s
      → Inv m
      → Grown m id s m s []
  Grown-refl m id s e v = record {
    states = λ j. ground (arith, int_beq_iff id j);
    table = sym (append-nil s.block_table);
    context = refl;
    paid = omega arith;
    size = refl;
    inv = v;
    keys = refl;
    values = refl;
    once = λ h. h;
  }

  pub Grown-trans :
      {m m' m'' : Manager T B} {id : ℤ} {s s' s'' : SequenceState} {ext ext' : List ℕ}
      → Grown m id s m' s' ext
      → Grown m' id s' m'' s'' ext'
      → Grown m id s m'' s'' (ext ++ ext')
  Grown-trans {id = id} {s = s} {ext = ext} {ext' = ext'} f g = record {
    states = λ j. ground (arith, f.states j, g.states j);
    table = g.table ∙ ap (λ x. x ++ ext') f.table ∙ append_assoc s.block_table ext ext';
    context = g.context ∙ f.context;
    paid = omega (arith, f.paid, g.paid, length-append ext ext');
    size = g.size ∙ f.size;
    inv = g.inv;
    keys = g.keys ∙ f.keys;
    values = g.values ∙ f.values;
    once = λ h. g.once (f.once h);
  }

  -- A fresh block at the end of the block table.
  extended :
      (m : Manager T B) (id : ℤ) (s : SequenceState) (a : Allocator) (b : ℕ)
      → get m.sequences id ≡ some s
      → Inv m
      → holders m.sequences b ≡ 0
      → Owned a (bump (holders m.sequences) b)
      → num_free a + 1 ≡ num_free m.allocator
      → let s' : SequenceState = record s { block_table = s.block_table ++ b ∷ [] } in
        Grown m id s (record m { allocator = a; sequences = put m.sequences id s' }) s' (b ∷ [])
  extended m id s a b e v fresh o paid =
      let s' : SequenceState = record s { block_table = s.block_table ++ b ∷ [] } in
      record {
        states = λ j. get-put m.sequences id j s';
        table = refl;
        context = refl;
        paid = paid;
        size = refl;
        inv =
            seal (put m.sequences id s') refl (put-Distinct m.sequences id s' v.distinct) (record {
              owned =
                  Owned-cong _ _
                    (λ x. ground (arith, moved s' x, count-append x s.block_table (b ∷ []))) o;
              indexed = v.books.indexed;
              live = λ x i g.
                  ground
                    (arith, moved s' x, count-append x s.block_table (b ∷ []), v.books.live x i g);
            });
        keys = refl;
        values = refl;
        once = λ h x. ground (
          arith,
          h x,
          count-append x s.block_table (b ∷ []),
          fresh,
          weight-le-total (λ (z : SequenceState). count b z.block_table) m.sequences id s e,
        );
      }
    where
      moved :
          (s' : SequenceState) (x : ℕ)
          → holders (put m.sequences id s') x + count x s.block_table
            ≡ holders m.sequences x + count x s'.block_table
      moved s' x = total-put_old (λ z. count x z.block_table) m.sequences id s' s e

  -- One block more where the index is past the table, or none to be had.
  pub grow-Grown :
      (m : Manager T B) (id : ℤ) (s : SequenceState) (i : ℕ)
      → get m.sequences id ≡ some s
      → i ≤ length s.block_table
      → Inv m
      → ((i ≡ length s.block_table)
          × (num_free m.allocator ≡ 0)
          × (grow id i m ≡ (err out_of_memory, m)))
        ⊎ ((s' : SequenceState) × (ext : List ℕ) × ((grow id i m).0 ≡ ok tt)
            × (i < length s'.block_table)
            × Grown m id s (grow id i m).1 s' ext)
  unfolding grow
  grow-Grown m id s i e h v = elim (Bool-cases (i == length s.block_table)) [
    | inr inside ↦
        rw (e, state_of) (rw inside (inr (s, [], refl, ground arith, Grown-refl m id s e v)))
    | inl at_end ↦
        rw (e, state_of)
          (rw at_end (elim (allocate-Owned (holders m.sequences) v.books.owned) [
            | inl (empty, fails) ↦ inl (ground arith, ap length empty, rw fails)
            | inr (b, _, fresh, done, books, paid, _) ↦ inr (
              record s { block_table = s.block_table ++ b ∷ [] },
              b ∷ [],
              rw done,
              ground (arith, length-append s.block_table (b ∷ [])),
              rw done (extended m id s (allocate m.allocator).1 b e v fresh books paid),
            )
          ]))
  ]
