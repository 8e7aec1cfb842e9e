-- ===== src/Llama/Decode/Graphable.antt =====
-- decode_step_graphable of src/wllm/models/llama.py does what decode_step_batch does.
use w_llm.Base.{
  ℕ, suc, ◌+◌, ◌*◌, ◌/◌, ◌%◌, ◌<◌, ◌≤◌, count, ◌≡◌, refl, ◌∙◌, sym, ap, subst, Option, none, List,
  [], ◌∷◌, map, length, All, arith,
}
use w_llm.Base.Table.{zip_with}
use w_llm.Kv.Storage.{Storage}
use w_llm.Runtime.{Row, Buffers}
use w_llm.Llama.{
  Torch, Attention, DecoderLayer, LlamaForCausalLm, write_rows, after_attention, embed,
  feed_forward,
}
use w_llm.Llama.Naive.{NoAdapter}
use w_llm.Llama.Rows.{length-map, length-zip_with}
use w_llm.Llama.Decode.{
  attend_rows, attention_decode, attention_graphable, decode_layers, run_batch, run_graph,
}

-- What CUDAGraphDecoder puts into its buffers for a batch.
abbrev pub buffers_of : ℕ → List Row → Buffers
buffers_of block_size rows = record {
  token_ids = map (λ (r : Row). r.token) rows;
  position_ids = map (λ (r : Row). r.position) rows;
  block_table = map (λ (r : Row). r.block_table) rows;
  context_len = map (λ (r : Row). r.context_len) rows;
  write_idx = map (λ (r : Row). r.slot.0 * block_size + r.slot.1) rows;
}

-- A row without an adapter, with a slot of a block.
abbrev pub IsPlain : ℕ → Row → Type 0
IsPlain block_size r = (r.lora ≡ none) × (r.slot.1 < block_size)

block_of : (b s k : ℕ) → s < k → (b * k + s) / k ≡ b
block_of b s k h = grind arith

slot_of : (b s k : ℕ) → s < k → (b * k + s) % k ≡ s
slot_of b s k h = grind arith

-- No two rows write to the same slot.
abbrev pub IsSpread : ℕ → List Row → Type 0
IsSpread k rows = (n : ℕ) → count n (map (λ (r : Row). r.slot.0 * k + r.slot.1) rows) ≤ 1

-- With no adapter, zipping with the adapters is a map.
zip_with-none :
    {X Y : Type 0} (k : ℕ) (f : Option ℕ → X → Y) (g : X → Y) (rows : List Row) (xs : List X)
    → ((x : X) → f none x ≡ g x)
    → All (IsPlain k) rows
    → length xs ≡ length rows
    → zip_with f (map (λ (r : Row). r.lora) rows) xs ≡ map g xs
zip_with-none k f g [] [] e h same = refl
zip_with-none k f g [] (x ∷ xs) e h same = absurd (omega (arith, same))
zip_with-none k f g (r ∷ rows) [] e h same = absurd (omega (arith, same))
zip_with-none k f g (r ∷ rows) (x ∷ xs) e ((plain, _), h) same =
    rw (plain, e x, zip_with-none k f g rows xs e h (omega (arith, same))) refl

map-map :
    {X Y Z : Type 0} (f : Y → Z) (g : X → Y) (xs : List X)
    → map f (map g xs) ≡ map (λ x. f (g x)) xs
map-map f g [] = refl
map-map f g (x ∷ xs) = ap (λ ys. f (g x) ∷ ys) (map-map f g xs)

-- What PyTorch documents of index_copy_, on the flat view of a tensor: row j of the source goes to index j of
-- the list, and index i of the view is slot i % k of block i / k. Nothing is said of an index that is listed
-- twice.
pub record IndexCopyLaws {T B S : Type 0} (st : Storage T B S) (k : ℕ)
    (index_copy : List ℕ → List S → T → T) : Type 0 where
  pub index_copy-nil : (t : T) → index_copy [] [] t ≡ t
  pub index_copy-cons :
      (i : ℕ) (idx : List ℕ) (r : S) (rs : List S) (t : T)
      → length rs ≡ length idx
      → count i idx ≡ 0
      → index_copy (i ∷ idx) (r ∷ rs) t ≡ index_copy idx rs (st.write t (i / k) (i % k) r)

module _ {P A S T B : Type 0} (tc : Torch P A S) (st : Storage T B S) (k : ℕ)
    (paged : P → T → T → List ℕ → ℕ → A) (index_copy : List ℕ → List S → T → T)
    (laws : IndexCopyLaws st k index_copy) where
  index_copy-write_rows :
      (rows : List Row) (rs : List P) (t : T)
      → All (IsPlain k) rows
      → IsSpread k rows
      → length rs ≡ length rows
      → index_copy (map (λ (r : Row). r.slot.0 * k + r.slot.1) rows) (map tc.to_float rs) t
        ≡ write_rows tc st (map (λ (r : Row). r.slot) rows) rs t
  unfolding write_rows
  index_copy-write_rows [] [] t h spread same = laws.index_copy-nil t
  index_copy-write_rows [] (p ∷ rs) t h spread same = absurd (omega (arith, same))
  index_copy-write_rows (r ∷ rows) [] t h spread same = absurd (omega (arith, same))
  index_copy-write_rows (r ∷ rows) (p ∷ rs) t ((_, inside), h) spread same =
      let b = block_of r.slot.0 r.slot.1 k inside in
      let s = slot_of r.slot.0 r.slot.1 k inside in
      let idx = map (λ (r : Row). r.slot.0 * k + r.slot.1) rows in
      let fits : length rs ≡ length rows = omega (arith, same) in
      let apart : count (r.slot.0 * k + r.slot.1) idx ≡ 0 =
        ground (arith, spread (r.slot.0 * k + r.slot.1)) in
      laws.index_copy-cons (r.slot.0 * k + r.slot.1) idx (tc.to_float p) (map tc.to_float rs) t
        (length-map tc.to_float rs
          ∙ fits
          ∙ sym (length-map (λ (r : Row). r.slot.0 * k + r.slot.1) rows))
        apart
      ∙ ap
          (λ c.
            index_copy idx (map tc.to_float rs)
              (st.write t c ((r.slot.0 * k + r.slot.1) % k) (tc.to_float p)))
          b
      ∙ ap (λ c. index_copy idx (map tc.to_float rs) (st.write t r.slot.0 c (tc.to_float p))) s
      ∙ index_copy-write_rows rows rs (st.write t r.slot.0 r.slot.1 (tc.to_float p)) h
          (λ n. ground (arith, spread n)) fits

  length-attend_rows :
      (rows : List Row) (qs : List P) (kt vt : T)
      → length qs ≡ length rows
      → length (
          attend_rows tc st k paged qs kt vt
            (map (λ (r : Row). r.block_table) rows)
            (map (λ (r : Row). r.context_len) rows))
        ≡ length rows
  length-attend_rows [] [] kt vt h = refl
  length-attend_rows [] (q ∷ qs) kt vt h = absurd (omega (arith, h))
  length-attend_rows (r ∷ rows) [] kt vt h = absurd (omega (arith, h))
  length-attend_rows (r ∷ rows) (q ∷ qs) kt vt h =
      ap suc (length-attend_rows rows qs kt vt (omega (arith, h)))

  length-queries :
      (rows : List Row) (ps : List P)
      → length ps ≡ length rows
      → length (zip_with tc.rotate (map (λ (r : Row). r.position) rows) ps) ≡ length rows
  length-queries rows ps same =
      length-zip_with tc.rotate (map (λ (r : Row). r.position) rows) ps
        (same ∙ sym (length-map (λ (r : Row). r.position) rows))
      ∙ length-map (λ (r : Row). r.position) rows

  module _ {H : Type 0} (at : Attention H P A) where
    length-attention_graphable :
        (rows : List Row) (kt vt : T) (xs : List H)
        → length xs ≡ length rows
        → length (attention_graphable tc st k paged at index_copy (buffers_of k rows) kt vt xs).2
          ≡ length xs
    unfolding attention_graphable
    length-attention_graphable rows kt vt xs same =
        length-map at.o_proj _
        ∙ length-attend_rows rows _ _ _
            (length-queries rows (map at.q_proj xs) (length-map at.q_proj xs ∙ same))
        ∙ sym same

    attention_graphable-attention_decode :
        (rows : List Row) (kt vt : T) (xs : List H)
        → NoAdapter at
        → All (IsPlain k) rows
        → IsSpread k rows
        → length xs ≡ length rows
        → attention_graphable tc st k paged at index_copy (buffers_of k rows) kt vt xs
          ≡ attention_decode tc st k paged at rows kt vt xs
    unfolding attention_graphable attention_decode
    attention_graphable-attention_decode rows kt vt xs n h spread same =
        let qs = zip_with tc.rotate (map (λ (r : Row). r.position) rows) (map at.q_proj xs) in
        let ks = zip_with tc.rotate (map (λ (r : Row). r.position) rows) (map at.k_proj xs) in
        let vs = map at.v_proj xs in
        let q =
          zip_with-none k (λ lora x. at.q_delta lora x (at.q_proj x)) at.q_proj rows xs
            (λ x. n.q_same x (at.q_proj x)) h same in
        let kk =
          zip_with-none k (λ lora x. at.k_delta lora x (at.k_proj x)) at.k_proj rows xs
            (λ x. n.k_same x (at.k_proj x)) h same in
        let v =
          zip_with-none k (λ lora x. at.v_delta lora x (at.v_proj x)) at.v_proj rows xs
            (λ x. n.v_same x (at.v_proj x)) h same in
        let kw =
          index_copy-write_rows rows ks kt h spread
            (length-queries rows (map at.k_proj xs) (length-map at.k_proj xs ∙ same)) in
        let vw = index_copy-write_rows rows vs vt h spread (length-map at.v_proj xs ∙ same) in
        let out =
          zip_with-none k (λ lora a. at.o_delta lora a (at.o_proj a)) at.o_proj rows
            (attend_rows tc st k paged qs (write_rows tc st (map (λ (r : Row). r.slot) rows) ks kt)
              (write_rows tc st (map (λ (r : Row). r.slot) rows) vs vt)
              (map (λ (r : Row). r.block_table) rows) (map (λ (r : Row). r.context_len) rows))
            (λ a. n.o_same a (at.o_proj a)) h
            (length-attend_rows rows qs _ _
              (length-queries rows (map at.q_proj xs) (length-map at.q_proj xs ∙ same))) in
        rw (q, kk, v, out, kw, vw) refl

  module _ {H M L : Type 0} (m : LlamaForCausalLm H P A M L) where
    decode_layers-same :
        (ls : List (DecoderLayer H P A M)) (rows : List Row) (ks vs : List T) (xs : List H)
        → All (λ l. NoAdapter l.self_attn) ls
        → All (IsPlain k) rows
        → IsSpread k rows
        → length xs ≡ length rows
        → decode_layers tc st k paged m
            (λ at. attention_graphable tc st k paged at index_copy (buffers_of k rows))
            ls
            ks
            vs
            xs
          ≡ decode_layers tc st k paged m (λ at. attention_decode tc st k paged at rows) ls ks vs xs
    decode_layers-same [] rows ks vs xs n h spread same = refl
    decode_layers-same (l ∷ ls) rows [] vs xs n h spread same = refl
    decode_layers-same (l ∷ ls) rows (kt ∷ ks) [] xs n h spread same = refl
    decode_layers-same (l ∷ ls) rows (kt ∷ ks) (vt ∷ vs) xs (here, behind) h spread same =
        let normed = map l.input_layernorm xs in
        let fits : length normed ≡ length rows = length-map l.input_layernorm xs ∙ same in
        let step =
          attention_graphable-attention_decode l.self_attn rows kt vt normed here h spread fits in
        let ys = (attention_decode tc st k paged l.self_attn rows kt vt normed).2 in
        let long : length ys ≡ length normed =
          subst (λ (t : T × T × List H). length t.2 ≡ length normed) step
            (length-attention_graphable l.self_attn rows kt vt normed fits) in
        let rest = decode_layers-same ls rows ks vs (after_attention m tc l xs ys) behind h spread (
          length-map (feed_forward m tc l) _
          ∙ length-zip_with m.add xs ys (long ∙ length-map l.input_layernorm xs)
          ∙ same) in
        rw (step, rest) refl

    -- A batch of rows without adapters, each with its own slot of a block, in the buffers that it fills, where
    -- index_copy_ does what it documents. The captured form of a decode step leaves the same tensors and
    -- gives the same logits as the eager one.
    pub run_graph-run_batch :
        (rows : List Row) (ks vs : List T)
        → All (λ l. NoAdapter l.self_attn) m.layers
        → All (IsPlain k) rows
        → IsSpread k rows
        → run_graph tc st k paged m index_copy ks vs (buffers_of k rows)
          ≡ run_batch tc st k paged m ks vs rows
    unfolding run_graph run_batch
    run_graph-run_batch rows ks vs n h spread =
        let embedded : map (embed m tc) (map (λ (r : Row). r.token) rows)
            ≡ map (λ (r : Row). embed m tc r.token) rows =
          map-map (embed m tc) (λ (r : Row). r.token) rows in
        rw
          (
            embedded,
            decode_layers-same m.layers rows ks vs (map (λ (r : Row). embed m tc r.token) rows) n h
                spread (length-map _ rows),
          )
          refl
