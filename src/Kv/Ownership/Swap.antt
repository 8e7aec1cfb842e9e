-- ===== src/Kv/Ownership/Swap.antt =====
-- Swapping in src/wllm/engine/kv_cache.py: what comes back, and when the copy back is refused.
use w_llm.Base.{
  ℕ, ◌≤◌, ◌<◌, ◌≡◌, refl, ◌∙◌, sym, ap, subst, none, some, List, [], ◌∷◌, length, get_elem?, count,
  arith,
}
use w_llm.Base.Int.{ℤ, int_eq, int_beq_iff}
use w_llm.Base.Dict.{get, put, remove, get-put, remove-Distinct}
use w_llm.Base.Outcome.{ok}
use w_llm.Kv.Allocator.{num_free}
use w_llm.Kv.Storage.{Storage}
use w_llm.Kv.Manager.{Manager, SequenceState, pop_state}
use w_llm.Kv.Swap.{
  snapshot, restore, swap_out, swap_in, allocate_all, blocks_for, pop_context_len, pop_snapshot,
}
use w_llm.Kv.Books.Loops.{free_blocks-Books, allocate_all-Books}
use w_llm.Kv.Ownership.{Inv, seal, holders, give_up-Inv, put_new-Inv}

module _ {T B V : Type 0} (st : Storage T B V) where
  -- Layer by layer: block i of one table holds what block i of the other held.
  abbrev pub SameRows : List ℕ → List ℕ → List T → List T → Type 0
  SameRows table table' [] [] = Unit
  SameRows table table' (k ∷ ks) [] = ⊥
  SameRows table table' [] (k' ∷ ks') = ⊥
  SameRows table table' (k ∷ ks) (k' ∷ ks') =
      ((i b b' slot : ℕ)
        → get_elem? table i ≡ some b
        → get_elem? table' i ≡ some b'
        → st.read k' b' slot ≡ st.read k b slot)
      × SameRows table table' ks ks'

  -- Layer by layer: blocks that do not stand in the table keep their content.
  abbrev pub Untouched : List ℕ → List T → List T → Type 0
  Untouched table [] [] = Unit
  Untouched table (k ∷ ks) [] = ⊥
  Untouched table [] (k' ∷ ks') = ⊥
  Untouched table (k ∷ ks) (k' ∷ ks') =
      ((b slot : ℕ) → count b table ≡ 0 → st.read k' b slot ≡ st.read k b slot)
      × Untouched table ks ks'

  -- One tensor: the gathered blocks written into as many fresh ones.
  scatter_one :
      (table table' : List ℕ) (k k₂ : T)
      → length table' ≡ length table
      → ((b : ℕ) → count b table' ≤ 1)
      → (k' : T) × (st.scatter k₂ table' (st.gather k table) ≡ some k')
        × ((i b b' slot : ℕ)
            → get_elem? table i ≡ some b
            → get_elem? table' i ≡ some b'
            → st.read k' b' slot ≡ st.read k b slot)
        × ((b slot : ℕ) → count b table' ≡ 0 → st.read k' b slot ≡ st.read k₂ b slot)
  scatter_one table table' k k₂ long once =
      let fits = st.rows-gather k table ∙ sym long in
      let (k', done) = st.scatter_fits k₂ table' (st.gather k table) fits in
      (
        k',
        done,
        λ i b b' slot at at'.
            st.read-scatter k₂ k' table' _ i b' slot once fits done at'
            ∙ st.row-gather k table i b slot at,
        λ b slot out. st.read-scatter_ne k₂ k' table' _ b slot done out,
      )

  restore-SameRows :
      (table table' : List ℕ) (ks vs ks₂ vs₂ : List T)
      → length table' ≡ length table
      → ((b : ℕ) → count b table' ≤ 1)
      → length vs ≡ length ks
      → length ks₂ ≡ length ks
      → length vs₂ ≡ length ks
      → (ks' : List T) × (vs' : List T) × (restore st table' (snapshot st table ks vs) ks₂ vs₂
          ≡ (ok tt, ks', vs'))
        × SameRows table table' ks ks'
        × SameRows table table' vs vs'
        × Untouched table' ks₂ ks'
        × Untouched table' vs₂ vs'
  unfolding restore snapshot
  restore-SameRows table table' [] [] [] [] long once p q r = ([], [], refl, tt, tt, tt, tt)
  restore-SameRows table table' (k ∷ ks) (v ∷ vs) (k₂ ∷ ks₂) (v₂ ∷ vs₂) long once p q r =
      let (k', kdone, krows, kout) = scatter_one table table' k k₂ long once in
      let (v', vdone, vrows, vout) = scatter_one table table' v v₂ long once in
      let (ks', vs', done, ksame, vsame, kkept, vkept) =
        restore-SameRows table table' ks vs ks₂ vs₂ long once (omega arith) (omega arith)
          (omega arith) in
      (
        k' ∷ ks',
        v' ∷ vs',
        rw kdone (rw vdone (rw done)),
        (krows, ksame),
        (vrows, vsame),
        (kout, kkept),
        (vout, vkept),
      )
  restore-SameRows table table' _ _ _ _ long once p q r = absurd (omega arith)

  -- What a sequence leaves behind when it is swapped out.
  pub record SwappedOut (m : Manager T B) (id : ℤ) (s : SequenceState) (m' : Manager T B)
      : Type 0 where
    pub inv : Inv m'
    pub sequences : m'.sequences ≡ remove m.sequences id
    pub copies : get m'.swapped_kv id ≡ some (snapshot st s.block_table m.k_caches m.v_caches)
    pub context : get m'.swapped_context_len id ≡ some s.context_len
    pub k_caches : m'.k_caches ≡ m.k_caches
    pub v_caches : m'.v_caches ≡ m.v_caches
    pub size : m'.block_size ≡ m.block_size

  -- Swapping out a sequence of the cache succeeds: it leaves the block tables, its blocks are given up
  -- without losing or sharing any, and its context length and a copy of its blocks are kept.
  pub swap_out-SwappedOut :
      (m : Manager T B) (id : ℤ) (s : SequenceState)
      → get m.sequences id ≡ some s
      → Inv m
      → ((swap_out st id m).0 ≡ ok tt) × SwappedOut m id s (swap_out st id m).1
  unfolding swap_out
  swap_out-SwappedOut m id s e v =
      let copies = snapshot st s.block_table m.k_caches m.v_caches in
      let rest = remove m.sequences id in
      let m' : Manager T B = record m {
        sequences = rest;
        swapped_kv = put m.swapped_kv id copies;
        swapped_context_len = put m.swapped_context_len id s.context_len;
      } in
      let k = give_up-Inv m id s e v in
      let (done, books, frame) =
        free_blocks-Books m' (holders rest) s.block_table
          (record { owned = k.owned; indexed = k.indexed; live = k.live }) in
      rw (e, pop_state)
        (
          done,
          record {
            inv = seal rest frame.sequences (remove-Distinct m.sequences id v.distinct) books;
            sequences = frame.sequences;
            copies =
                ap (λ d. get d id) frame.swapped_kv
                ∙ ground (arith, get-put m.swapped_kv id id copies, int_beq_iff id id);
            context =
                ap (λ d. get d id) frame.swapped_context_len
                ∙ ground
                    (arith, get-put m.swapped_context_len id id s.context_len, int_beq_iff id id);
            k_caches = frame.k_caches;
            v_caches = frame.v_caches;
            size = frame.block_size;
          },
        )

  -- What swapping in brings back, for the block table and the tensors that were swapped out.
  pub record SwappedIn (m : Manager T B) (id : ℤ) (s : SequenceState) (ks vs : List T)
      (m' : Manager T B) : Type 0 where
    pub state : SequenceState
    pub found : get m'.sequences id ≡ some state
    pub context : state.context_len ≡ s.context_len
    pub long : length state.block_table ≡ length s.block_table
    pub k_rows : SameRows s.block_table state.block_table ks m'.k_caches
    pub v_rows : SameRows s.block_table state.block_table vs m'.v_caches
    -- the blocks of the other sequences are as they were
    pub k_others : Untouched state.block_table m.k_caches m'.k_caches
    pub v_others : Untouched state.block_table m.v_caches m'.v_caches
    pub fresh : (b : ℕ) → 0 < count b state.block_table → holders m.sequences b ≡ 0
    pub inv : Inv m'

  swap_in-SwappedIn :
      (m : Manager T B) (id : ℤ) (s : SequenceState) (ks vs : List T)
      → get m.swapped_context_len id ≡ some s.context_len
      → get m.swapped_kv id ≡ some (snapshot st s.block_table ks vs)
      → get m.sequences id ≡ none
      → length s.block_table ≡ blocks_for m.block_size s.context_len
      → blocks_for m.block_size s.context_len ≤ num_free m.allocator
      → length vs ≡ length ks
      → length m.k_caches ≡ length ks
      → length m.v_caches ≡ length ks
      → Inv m
      → ((swap_in st id m).0 ≡ ok tt) × SwappedIn m id s ks vs (swap_in st id m).1
  unfolding swap_in
  swap_in-SwappedIn m id s ks vs context copies new exact room p q r v =
      let m₁ : Manager T B = record m {
        swapped_context_len = remove m.swapped_context_len id;
        swapped_kv = remove m.swapped_kv id;
      } in
      let (table, done, long, fresh, books, frame) =
        allocate_all-Books m₁ (holders m.sequences) (blocks_for m.block_size s.context_len)
          (record { owned = v.books.owned; indexed = v.books.indexed; live = v.books.live }) room in
      let (ks', vs', restored, krows, vrows, kout, vout) =
        restore-SameRows s.block_table table ks vs m.k_caches m.v_caches (long ∙ sym exact)
          fresh.once p q r in
      let m₂ = (allocate_all (blocks_for m.block_size s.context_len) m₁).1 in
      let state : SequenceState = record { block_table = table; context_len = s.context_len } in
      let written : restore st table (snapshot st s.block_table ks vs) m₂.k_caches m₂.v_caches
          ≡ (ok tt, ks', vs') =
        ap (λ c. restore st table (snapshot st s.block_table ks vs) c m₂.v_caches) frame.k_caches
        ∙ ap (λ c. restore st table (snapshot st s.block_table ks vs) m.k_caches c) frame.v_caches
        ∙ restored in
      let m₃ : Manager T B = record m₂ { k_caches = ks'; v_caches = vs' } in
      rw (context, pop_context_len)
        (rw (copies, pop_snapshot)
          (rw done (
            rw written (
              refl,
              record {
                state = state;
                found = ground (arith, get-put m₂.sequences id id state, int_beq_iff id id);
                context = refl;
                long = long ∙ sym exact;
                k_rows = krows;
                v_rows = vrows;
                k_others = kout;
                v_others = vout;
                fresh = fresh.unheld;
                inv =
                    put_new-Inv {m = m₃} m.sequences id state frame.sequences v.distinct new
                      (record { owned = books.owned; indexed = books.indexed; live = books.live });
              },
            ))))

  -- Swapped out and in again, with whatever happened in between that left the host copy and the
  -- pool's room alone, a sequence without spare blocks has its context length and, layer by layer,
  -- every slot of its cache back, in blocks that nobody held.
  pub swap_in-swap_out :
      (m : Manager T B) (id : ℤ) (s : SequenceState) (m' : Manager T B)
      → get m.sequences id ≡ some s
      → Inv m
      → length m.v_caches ≡ length m.k_caches
      → get m'.swapped_kv id ≡ get (swap_out st id m).1.swapped_kv id
      → get m'.swapped_context_len id ≡ get (swap_out st id m).1.swapped_context_len id
      → get m'.sequences id ≡ none
      → m'.block_size ≡ m.block_size
      → length m'.k_caches ≡ length m.k_caches
      → length m'.v_caches ≡ length m.k_caches
      → length s.block_table ≡ blocks_for m.block_size s.context_len
      → length s.block_table ≤ num_free m'.allocator
      → Inv m'
      → ((swap_in st id m').0 ≡ ok tt)
        × SwappedIn m' id s m.k_caches m.v_caches (swap_in st id m').1
  swap_in-swap_out m id s m' e v layers copies context new size q r exact room v' =
      let out = (swap_out-SwappedOut m id s e v).1 in
      let exact' = exact ∙ ap (λ n. blocks_for n s.context_len) (sym size) in
      swap_in-SwappedIn m' id s m.k_caches m.v_caches (context ∙ out.context) (copies ∙ out.copies)
        new exact' (subst (λ n. n ≤ num_free m'.allocator) exact' room) layers q r v'
