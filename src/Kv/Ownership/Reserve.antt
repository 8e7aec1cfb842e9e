-- ===== src/Kv/Ownership/Reserve.antt =====
-- `reserve` of src/wllm/engine/kv_cache.py: the slots it returns, the blocks it takes, and when it fails.
use w_llm.Base.{
  ℕ, zero, suc, ◌+◌, ◌*◌, ◌/◌, ◌%◌, ◌≤◌, ◌<◌, ◌≡◌, refl, ◌∙◌, ap, subst, ◌⊎◌, inl, inr, some, List,
  [], ◌∷◌, ◌++◌, length, length-append, get_elem?, get_elem?-some, lt_of_get_elem?,
  get_elem?-append_left, arith,
}
use w_llm.Base.Int.{ℤ, int_eq, int_beq_iff}
use w_llm.Base.Dict.{get}
use w_llm.Base.Outcome.{Result, ok, err, out_of_memory, after, pure}
use w_llm.Kv.Allocator.{num_free}
use w_llm.Kv.Manager.{Manager, SequenceState, state_of}
use w_llm.Kv.Slots.{grow, reserve, reserve_from}
use w_llm.Kv.Ownership.{Inv}
use w_llm.Kv.Ownership.Grown.{Grown, Grown-refl, Grown-trans, grow-Grown}

div_step : (n k : ℕ) → 0 < k → (n + 1) / k ≤ n / k + 1
div_step n k h = grind arith

div_lower : (n k : ℕ) → n / k * k ≤ n
div_lower n k = grind arith

pub div_upper : (n k l : ℕ) → 0 < k → n / k < l → n < l * k
div_upper n k l h p = grind arith

pub div_bound : (n k l : ℕ) → 0 < k → n ≤ l * k → n / k ≤ l
div_bound n k l h p = grind arith

-- The slots from a position on: block `pos / block_size` of the table, slot `pos % block_size`.
abbrev pub Slots : ℕ → List ℕ → ℕ → List (ℕ × ℕ) → Type 0
Slots block_size table pos [] = Unit
Slots block_size table pos ((b, slot) ∷ ps) =
    (get_elem? table (pos / block_size) ≡ some b)
    × (slot ≡ pos % block_size)
    × Slots block_size table (pos + 1) ps

module _ {T B : Type 0} where
  -- What `reserve` promises for `n` tokens from `pos` on: the slots, or out of memory, and then the
  -- pool is spent and was too small.
  pub record Reserved (m : Manager T B) (id : ℤ) (s : SequenceState) (block_size n pos : ℕ)
      (r : Result (List (ℕ × ℕ)) × Manager T B) : Type 0 where
    pub state : SequenceState
    pub ext : List ℕ
    pub grown : Grown m id s r.1 state ext
    pub outcome :
        ((ps : List (ℕ × ℕ)) × (r.0 ≡ ok ps)
          × (length ps ≡ n)
          × (pos + n ≤ length state.block_table * block_size)
          × Slots block_size state.block_table pos ps)
        ⊎ ((r.0 ≡ err out_of_memory)
            × (num_free r.1.allocator ≡ 0)
            × ((length s.block_table + num_free m.allocator) * block_size < pos + n))

  -- Blocks taken come from the free ones.
  same_room :
      {m m' : Manager T B} {id : ℤ} {s s' : SequenceState} {ext : List ℕ}
      → Grown m id s m' s' ext
      → length s'.block_table + num_free m'.allocator ≡ length s.block_table + num_free m.allocator
  same_room {s = s} {ext = ext} g =
      omega (arith, g.paid, ap length g.table, length-append s.block_table ext)

  -- The slot of the next token, put before those of the rest.
  cons_slot :
      (m m' : Manager T B) (id : ℤ) (s s' : SequenceState) (ext : List ℕ) (k n pos b : ℕ)
      (r : Result (List (ℕ × ℕ)) × Manager T B)
      → Grown m id s m' s' ext
      → get_elem? s'.block_table (pos / k) ≡ some b
      → Reserved m' id s' k n (pos + 1) r
      → Reserved m id s k (suc n) pos (after r.0 (λ ps. pure ((b, pos % k) ∷ ps)) r.1)
  cons_slot m m' id s s' ext k n pos b r g at rest = elim rest.outcome [
    | inl (ps, done, long, covered, slots) ↦ rw done (record {
      state = rest.state;
      ext = ext ++ rest.ext;
      grown = Grown-trans g rest.grown;
      outcome = inl (
        (b, pos % k) ∷ ps,
        refl,
        ap suc long,
        omega (arith, covered),
        (
          ap (λ t. get_elem? t (pos / k)) rest.grown.table
              ∙ get_elem?-append_left s'.block_table rest.ext (pos / k) (lt_of_get_elem? _ _ at)
              ∙ at,
          refl,
          slots,
        ),
      );
    })
    | inr (fails, spent, small) ↦ rw fails (record {
      state = rest.state;
      ext = ext ++ rest.ext;
      grown = Grown-trans g rest.grown;
      outcome =
          inr (refl, spent, subst (λ x. x * k < pos + suc n) (same_room g) (omega (arith, small)));
    })
  ]

  reserve_from-Reserved :
      (m : Manager T B) (id : ℤ) (s : SequenceState) (k n pos : ℕ)
      → get m.sequences id ≡ some s
      → pos ≤ length s.block_table * k
      → 0 < k
      → Inv m
      → Reserved m id s k n pos (reserve_from k id n pos m)
  unfolding reserve_from
  reserve_from-Reserved m id s k zero pos e h sz v = record {
    state = s;
    ext = [];
    grown = Grown-refl m id s e v;
    outcome = inl ([], refl, refl, omega arith, tt);
  }
  reserve_from-Reserved m id s k (suc n) pos e h sz v =
      elim (grow-Grown m id s (pos / k) e (div_bound pos k _ sz h) v) [
        | inl (at_end, spent, fails) ↦ rw fails (record {
          state = s;
          ext = [];
          grown = Grown-refl m id s e v;
          outcome = inr (refl, spent, rw (spent, ← at_end) (omega (arith, div_lower pos k)));
        })
        | inr (s', ext, done, inside, grown) ↦
            let found : get (grow id (pos / k) m).1.sequences id ≡ some s' =
              ground (arith, grown.states id, int_beq_iff id id) in
            let (b, at) = get_elem?-some s'.block_table (pos / k) inside in
            let rest =
              reserve_from-Reserved (grow id (pos / k) m).1 id s' k n (pos + 1) found
                (omega (arith, div_upper pos k _ sz inside)) sz grown.inv in
            rw done (
              rw (found, state_of)
                (rw (at, after) (cons_slot m _ id s s' ext k n pos b _ grown at rest)))
      ]

  -- From a sequence whose blocks cover its context, `reserve` either returns the `n` slots that
  -- follow the context, or runs out of memory with the pool spent, and then the pool was too small.
  -- Either way the books stay right and other sequences keep their block tables.
  pub reserve-Reserved :
      (m : Manager T B) (id : ℤ) (s : SequenceState) (n : ℕ)
      → get m.sequences id ≡ some s
      → s.context_len ≤ length s.block_table * m.block_size
      → 0 < m.block_size
      → Inv m
      → Reserved m id s m.block_size n s.context_len (reserve id n m)
  unfolding reserve
  reserve-Reserved m id s n e h sz v =
      rw (e, state_of) (reserve_from-Reserved m id s m.block_size n s.context_len e h sz v)
