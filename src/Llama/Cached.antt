-- ===== src/Llama/Cached.antt =====
-- What the paged tensors of src/wllm/engine/kv_cache.py hold for the tokens of one block table, and what
-- the writes and the gathers of src/wllm/models/llama.py do with it.
use w_llm.Base.{
  ℕ, zero, suc, ◌+◌, ◌-◌, ◌*◌, ◌/◌, ◌%◌, ◌≤◌, ◌<◌, ◌≡◌, refl, ◌∙◌, sym, ap, subst, inl, inr,
  Bool-cases, some, List, [], ◌∷◌, ◌++◌, map, length, take, length-append, get_elem?,
  get_elem?-some, lt_of_get_elem?, get_elem?-append_left, get_elem?-snoc, count, ◌==◌, ◌&&◌, ltb,
  arith, if◌then◌else◌,
}
use mathlib.Core.List.{append_assoc, append-nil}
use w_llm.Kv.Storage.{Storage}
use w_llm.Kv.Slots.{flat_rows, gather_slots}
use w_llm.Kv.Ownership.Reserve.{Slots, div_upper}
use w_llm.Llama.{Torch, write_rows}

-- No block stands twice in a block table.
abbrev pub IsOnce : List ℕ → Type 0
IsOnce table = (b : ℕ) → count b table ≤ 1

count_pos : (xs : List ℕ) (i b : ℕ) → get_elem? xs i ≡ some b → 0 < count b xs
count_pos [] i b h = cc
count_pos (x ∷ xs) zero b h = ground arith
count_pos (x ∷ xs) (suc i) b h = ground (arith, count_pos xs i b h)

same_index :
    (xs : List ℕ) (i j b : ℕ)
    → IsOnce xs
    → get_elem? xs i ≡ some b
    → get_elem? xs j ≡ some b
    → i ≡ j
same_index [] i j b once h g = cc
same_index (x ∷ xs) zero zero b once h g = refl
same_index (x ∷ xs) zero (suc j) b once h g = absurd (ground (arith, once b, count_pos xs j b g))
same_index (x ∷ xs) (suc i) zero b once h g = absurd (ground (arith, once b, count_pos xs i b h))
same_index (x ∷ xs) (suc i) (suc j) b once h g =
    ap suc (same_index xs i j b (λ c. ground (arith, once c)) h g)

same_slot : (p q k : ℕ) → 0 < k → p / k ≡ q / k → p % k ≡ q % k → p ≡ q
same_slot p q k h d m = grind arith

some_inj : {A : Type 0} {a b : A} → some a ≡ some b → a ≡ b
some_inj e = cc

module _ {T B S : Type 0} (st : Storage T B S) (k : ℕ) where
  -- The tensor holds a row in the slot that the block table gives to token `p`.
  abbrev pub Holds : T → List ℕ → ℕ → S → Type 0
  Holds t table p r = (b : ℕ) × (get_elem? table (p / k) ≡ some b) × (st.read t b (p % k) ≡ r)

  -- It holds the rows, one for each token.
  abbrev pub Cached : T → List ℕ → List S → Type 0
  Cached t table rows = (p : ℕ) (r : S) → get_elem? rows p ≡ some r → Holds t table p r

  flat_rows-Cached :
      (t : T) (table : List ℕ) (rows : List S) (p n : ℕ)
      → ((i q : ℕ) (r : S) → get_elem? rows i ≡ some r → q ≡ p + i → Holds t table q r)
      → length rows ≤ n
      → take (length rows) (flat_rows st k t table p n) ≡ rows
  unfolding flat_rows
  flat_rows-Cached t table [] p n h le = refl
  flat_rows-Cached t table (r ∷ rows) p zero h le = absurd (omega arith)
  flat_rows-Cached t table (r ∷ rows) p (suc n) h le =
      let (b, at, read) = h 0 p r refl (omega arith) in
      let rest =
        flat_rows-Cached t table rows (p + 1) n
          (λ i q r' e same. h (suc i) q r' e (omega (arith, same))) (omega (arith, le)) in
      let row : st.row (st.gather t table) (p / k) (p % k) ≡ r =
        st.row-gather t table (p / k) b (p % k) at ∙ read in
      rw (row, rest) refl

  -- The rows fit into the blocks of the table.
  Cached-fits :
      (t : T) (table : List ℕ) (rows : List S)
      → 0 < k
      → Cached t table rows
      → length rows ≤ length table * k
  Cached-fits t table rows pos h = elim (Bool-cases (ltb 0 (length rows))) [
    | inr empty ↦ ground arith
    | inl some_row ↦
        let (r, e) = get_elem?-some rows (length rows - 1) (ground arith) in
        let (b, at, _) = h (length rows - 1) r e in
        ground
          (arith, div_upper (length rows - 1) k (length table) pos (lt_of_get_elem? table _ at))
  ]

  -- Gathering the blocks of the table gives the rows back.
  pub gather_slots-Cached :
      (t : T) (table : List ℕ) (rows : List S)
      → 0 < k
      → Cached t table rows
      → gather_slots st k t table (length rows) ≡ rows
  unfolding gather_slots
  gather_slots-Cached t table rows pos h =
      flat_rows-Cached t table rows 0 (length table * k)
        (λ i q r e same. subst (λ x. Holds t table x r) (omega (arith, same)) (h i r e))
        (Cached-fits t table rows pos h)

  -- One more row, in the slot that follows.
  write-Cached :
      (t : T) (table : List ℕ) (rows : List S) (b : ℕ) (r : S)
      → 0 < k
      → IsOnce table
      → get_elem? table (length rows / k) ≡ some b
      → Cached t table rows
      → Cached (st.write t b (length rows % k) r) table (rows ++ r ∷ [])
  write-Cached t table rows b r pos once at h p r' e = elim (Bool-cases (ltb p (length rows))) [
    | inl before ↦
        let (c, found, read) =
          h p r' (sym (get_elem?-append_left rows (r ∷ []) p (ground arith)) ∙ e) in
        (
          c,
          found,
          st.read-write t b (length rows % k) c (p % k) r ∙ elsewhere c found (ground arith) ∙ read,
        )
    | inr behind ↦
        let last : p ≡ length rows =
          ground (arith, lt_of_get_elem? (rows ++ r ∷ []) p e, length-append rows (r ∷ [])) in
        let here : r ≡ r' =
          some_inj (sym (get_elem?-snoc rows r) ∙ ap (get_elem? (rows ++ r ∷ [])) (sym last) ∙ e) in
        subst (λ q. Holds (st.write t b (length rows % k) r) table q r') (sym last)
          (b, at, st.read-write t b (length rows % k) b (length rows % k) r ∙ ground (arith, here))
  ]
    where
      elsewhere :
          (c : ℕ)
          → get_elem? table (p / k) ≡ some c
          → p < length rows
          → (if b == c && length rows % k == p % k then r else st.read t c (p % k))
            ≡ st.read t c (p % k)
      elsewhere c found before = elim (Bool-cases (b == c && length rows % k == p % k)) [
        | inr other ↦ rw other refl
        | inl both ↦
            let at' : get_elem? table (length rows / k) ≡ some c =
              at ∙ ap some (ground (arith, both)) in
            let block = same_index table (length rows / k) (p / k) c once at' found in
            absurd
              (omega (arith, before, same_slot (length rows) p k pos block (ground (arith, both))))
      ]

  -- The rows of a chunk, in the slots that `reserve` gave for them.
  pub write_rows-Cached :
      {P A : Type 0} (tc : Torch P A S) (t : T) (table : List ℕ) (rows : List S) (ps : List (ℕ × ℕ))
      (news : List P)
      → 0 < k
      → IsOnce table
      → Slots k table (length rows) ps
      → length ps ≡ length news
      → Cached t table rows
      → Cached (write_rows tc st ps news t) table (rows ++ map tc.to_float news)
  unfolding write_rows
  write_rows-Cached tc t table rows [] [] pos once slots same h =
      subst (Cached t table) (sym (append-nil rows)) h
  write_rows-Cached tc t table rows ((b, s) ∷ ps) (r ∷ news) pos once (at, slot, slots) same h =
      let t' = st.write t b s (tc.to_float r) in
      let rows' = rows ++ tc.to_float r ∷ [] in
      let h' : Cached t' table rows' =
        subst (λ x. Cached (st.write t b x (tc.to_float r)) table rows') (sym slot)
          (write-Cached t table rows b (tc.to_float r) pos once at h) in
      let next : length rows + 1 ≡ length rows' = sym (length-append rows (tc.to_float r ∷ [])) in
      subst (Cached (write_rows tc st ps news t') table)
        (append_assoc rows (tc.to_float r ∷ []) (map tc.to_float news))
        (write_rows-Cached tc t' table rows' ps news pos once
          (subst (λ n. Slots k table n ps) next slots) (omega (arith, same)) h')
  write_rows-Cached tc t table rows [] (r ∷ news) pos once slots same h =
      absurd (omega (arith, same))
  write_rows-Cached tc t table rows (p ∷ ps) [] pos once slots same h = absurd (omega (arith, same))
