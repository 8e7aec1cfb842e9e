-- ===== src/Kv/Allocator/Owned.antt =====
-- The allocator's books: each block's count is the number of its holders, and the free list holds
-- exactly the blocks without one.
use w_llm.Base.{
  ℕ, zero, suc, ◌+◌, ◌-◌, ◌<◌, ◌≡◌, refl, ◌∙◌, ◌⊎◌, inl, inr, Bool, true, false, ◌&&◌, some, List,
  [], ◌∷◌, length, get_elem?, get_elem?-some, get_or, get_or-set, get_or-replicate,
  get_or_of_get_elem?, length-set, length-replicate, count, ltb, lt→ltb, set, ap, Bool-cases, leb,
  ◌==◌, if◌then◌else◌, arith,
}
use w_llm.Base.Outcome.{Result, ok, err, out_of_memory}
use w_llm.Kv.Allocator.{Allocator, countdown, init, num_free, allocate, add_ref, free, take_block}

pub record Owned (a : Allocator) (held : ℕ → ℕ) : Type 0 where
  pub size : length a.ref_counts ≡ a.num_blocks
  pub refs : (b : ℕ) → get_or a.ref_counts b 0 ≡ held b
  pub free : (b : ℕ) → count b a.free_blocks ≡ (if ltb b a.num_blocks && held b == 0 then 1 else 0)

-- One more holder, and one fewer, of a block.
abbrev pub bump : (ℕ → ℕ) → ℕ → ℕ → ℕ
bump held b j = if b == j then held j + 1 else held j

abbrev pub drop_one : (ℕ → ℕ) → ℕ → ℕ → ℕ
drop_one held b j = if b == j then held j - 1 else held j

pub Owned-cong :
    {a : Allocator} (held held' : ℕ → ℕ)
    → ((b : ℕ) → held b ≡ held' b)
    → Owned a held
    → Owned a held'
Owned-cong held held' e o = record {
  size = o.size;
  refs = λ b. o.refs b ∙ e b;
  free = λ b. ground (arith, o.free b, e b);
}

count-countdown : (n b : ℕ) → count b (countdown n) ≡ (if ltb b n then 1 else 0)
unfolding countdown
count-countdown zero b = ground arith
count-countdown (suc n) b = ground (arith, count-countdown n b)

pub init-Owned : (n : ℕ) → Owned (init n) (λ _. 0)
unfolding init
init-Owned n = record {
  size = length-replicate n 0;
  refs = λ b. get_or-replicate n b 0;
  free = λ b. ground (arith, count-countdown n b);
}

-- A held block is within the pool.
pub held_lt : (xs : List ℕ) (b : ℕ) → 0 < get_or xs b 0 → b < length xs
held_lt [] b h = absurd (omega arith)
held_lt (x ∷ xs) zero h = omega arith
held_lt (x ∷ xs) (suc b) h = omega (arith, held_lt xs b h)

-- A held block's count can be read, and written.
module _ {a : Allocator} (held : ℕ → ℕ) (o : Owned a held) (b : ℕ) (h : 0 < held b) where
  held-lt-size : b < length a.ref_counts
  held-lt-size = held_lt a.ref_counts b (omega (arith, o.refs b))

  pub held-lt-num_blocks : b < a.num_blocks
  held-lt-num_blocks = omega (arith, held-lt-size, o.size)

  read_ref : get_elem? a.ref_counts b ≡ some (held b)
  read_ref =
      let (c, e) = get_elem?-some a.ref_counts b held-lt-size in
      ground (arith, e, get_or_of_get_elem? a.ref_counts b 0 e, o.refs b)

-- The effect of each call, where its counts are in range.
add_ref_run :
    (a : Allocator) (b c : ℕ)
    → b < length a.ref_counts
    → get_elem? a.ref_counts b ≡ some c
    → add_ref b a ≡ (ok tt, record a { ref_counts = set a.ref_counts b (c + 1) })
unfolding add_ref
add_ref_run a b c lt e = ground (arith, lt→ltb _ _ lt)

abbrev released : Allocator → ℕ → ℕ → Result Bool × Allocator
released a b c =
    if leb c 1
    then (
      ok true,
      record a {
        ref_counts = set (set a.ref_counts b (c - 1)) b 0;
        free_blocks = b ∷ a.free_blocks;
      },
    )
    else (ok false, record a { ref_counts = set a.ref_counts b (c - 1) })

get_elem?-set_self : (xs : List ℕ) (i v : ℕ) → i < length xs → get_elem? (set xs i v) i ≡ some v
get_elem?-set_self [] i v h = elim h [ ]
get_elem?-set_self (x ∷ xs) zero v h = refl
get_elem?-set_self (x ∷ xs) (suc i) v h = get_elem?-set_self xs i v (omega arith)

free_run :
    (a : Allocator) (b c : ℕ)
    → b < length a.ref_counts
    → get_elem? a.ref_counts b ≡ some c
    → free b a ≡ released a b c
unfolding free
free_run a b c lt e =
    ground (arith, length-set a.ref_counts b (c - 1), get_elem?-set_self a.ref_counts b (c - 1) lt)

module _ {a : Allocator} (held : ℕ → ℕ) (o : Owned a held) where
  -- With counts and free list that match who holds what, `allocate` either finds the free list empty
  -- and raises out of memory, or takes a block of the pool that nobody held, which is then held once.
  pub allocate-Owned :
      ((a.free_blocks ≡ []) × (allocate a ≡ (err out_of_memory, a)))
      ⊎ ((b : ℕ) × (b < a.num_blocks)
          × (held b ≡ 0)
          × ((allocate a).0 ≡ ok b)
          × Owned (allocate a).1 (bump held b)
          × (num_free (allocate a).1 + 1 ≡ num_free a)
          × ((allocate a).1.num_blocks ≡ a.num_blocks))
  unfolding allocate
  allocate-Owned = go a.free_blocks refl
    where
      taken : (b : ℕ) (rest : List ℕ) → a.free_blocks ≡ b ∷ rest → (b < a.num_blocks) × (held b ≡ 0)
      taken b rest e = ground (arith, o.free b, ap (count b) e)

      go :
          (bs : List ℕ)
          → a.free_blocks ≡ bs
          → ((a.free_blocks ≡ []) × (take_block bs a ≡ (err out_of_memory, a)))
            ⊎ ((b : ℕ) × (b < a.num_blocks)
                × (held b ≡ 0)
                × ((take_block bs a).0 ≡ ok b)
                × Owned (take_block bs a).1 (bump held b)
                × (num_free (take_block bs a).1 + 1 ≡ num_free a)
                × ((take_block bs a).1.num_blocks ≡ a.num_blocks))
      go [] e = inl (e, refl)
      go (b ∷ rest) e =
          let lt : b < length a.ref_counts = omega (arith, (taken b rest e).0, o.size) in
          let written = get_or-set a.ref_counts b in
          rw (lt→ltb _ _ lt) (
            inr (
              b,
              (taken b rest e).0,
              (taken b rest e).1,
              refl,
              record {
                size = length-set a.ref_counts b 1 ∙ o.size;
                refs = λ j. ground (arith, written j 1 0 lt, o.refs j, (taken b rest e).1);
                free = λ j. ground (arith, o.free j, ap (count j) e, (taken b rest e).1);
              },
              omega (arith, ap length e),
              refl,
            ))

  pub add_ref-Owned :
      (b : ℕ)
      → 0 < held b
      → ((add_ref b a).0 ≡ ok tt)
        × Owned (add_ref b a).1 (bump held b)
        × ((add_ref b a).1.free_blocks ≡ a.free_blocks)
        × ((add_ref b a).1.num_blocks ≡ a.num_blocks)
  add_ref-Owned b h =
      rw (add_ref_run a b (held b) (held-lt-size held o b h) (read_ref held o b h)) (
        refl,
        record {
          size = length-set a.ref_counts b (held b + 1) ∙ o.size;
          refs = λ j. ground (
            arith,
            get_or-set a.ref_counts b j (held b + 1) 0 (held-lt-size held o b h),
            o.refs j,
          );
          free = λ j. ground (arith, o.free j);
        },
        refl,
        refl,
      )

  -- Freeing a held block drops one reference; it goes back to the free list, and the call answers
  -- true, exactly if that was the last one.
  pub free-Owned :
      (b : ℕ)
      → 0 < held b
      → ((free b a).0 ≡ ok (held b == 1))
        × Owned (free b a).1 (drop_one held b)
        × (num_free (free b a).1 ≡ (if held b == 1 then num_free a + 1 else num_free a))
        × ((free b a).1.num_blocks ≡ a.num_blocks)
  free-Owned b h =
      rw (free_run a b (held b) (held-lt-size held o b h) (read_ref held o b h))
        (elim (Bool-cases (leb (held b) 1)) [
          | inl last ↦ rw last (
            ground arith,
            record {
              size = length-set _ b 0 ∙ length-set a.ref_counts b (held b - 1) ∙ o.size;
              refs = λ j. ground (arith, reset j (held b - 1), reset_twice j, o.refs j);
              free = λ j. ground (arith, o.free j, held-lt-num_blocks held o b h);
            },
            ground arith,
            refl,
          )
          | inr more ↦ rw more (
            ground arith,
            record {
              size = length-set a.ref_counts b (held b - 1) ∙ o.size;
              refs = λ j. ground (arith, reset j (held b - 1), o.refs j);
              free = λ j. ground (arith, o.free j, held-lt-num_blocks held o b h);
            },
            ground arith,
            refl,
          )
        ])
    where
      size : b < length a.ref_counts
      size = held-lt-size held o b h

      reset :
          (j v : ℕ)
          → get_or (set a.ref_counts b v) j 0 ≡ (if b == j then v else get_or a.ref_counts j 0)
      reset j v = get_or-set a.ref_counts b j v 0 size

      reset_twice :
          (j : ℕ)
          → get_or (set (set a.ref_counts b (held b - 1)) b 0) j 0
            ≡ (if b == j then 0 else get_or (set a.ref_counts b (held b - 1)) j 0)
      reset_twice j =
          get_or-set _ b j 0 0 (omega (arith, size, length-set a.ref_counts b (held b - 1)))
