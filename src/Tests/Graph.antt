-- ===== src/Tests/Graph.antt =====
-- The decoder of src/wllm/engine/cuda_graph_decoder.py with the buckets 4, 1 and 2.
use w_llm.Base.{◌≡◌, refl, true, false, [], ◌∷◌}
use w_llm.Base.Outcome.{ok}
use w_llm.GraphDecoder.{GraphDecoder, new_decoder}

abbrev three_buckets : GraphDecoder
three_buckets = record {
  bucket_sizes = 1 ∷ 2 ∷ 4 ∷ [];
  max_bucket = 4;
  max_blocks_per_seq = 8;
  graphs = [];
  scratch_seq_ids = [];
  captured = false;
}

three_buckets-new : new_decoder true (4 ∷ 1 ∷ 2 ∷ []) 8 ≡ ok three_buckets
unfolding new_decoder
three_buckets-new = refl
