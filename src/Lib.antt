-- ===== src/Lib.antt =====
-- The inference engine wLLM: its paged KV cache, its sequences and its scheduler.
--
-- A request is a `Sequence` (src/wllm/engine/sequence.py). The `Scheduler`
-- (src/wllm/engine/scheduler.py) admits sequences, prefills and decodes them through the model
-- (src/wllm/models/llama.py), drafts tokens for them (src/wllm/engine/speculative.py), preempts them
-- when the cache is full and runs groups of beams (src/wllm/engine/beam_search.py). All of them keep
-- their keys and values in the `KVCacheManager` (src/wllm/engine/kv_cache.py), which stands on a
-- `BlockAllocator` that counts references to blocks.
--
-- Files:
--   Base          numbers, lists, dicts, Python's integers, and `Act`: a call that takes the state and
--                 returns a value or an exception, and the new state
--   Kv.Allocator  class BlockAllocator; the free list's head is the end that Python pops
--   Kv.Storage    what the cache uses of PyTorch tensors, as an interface with its laws
--   Kv.Manager    class KVCacheManager: state, create_sequence, create_sequence_from_prefix,
--                 _free_block, free_sequence
--   Kv.Slots      reserve, write, advance, rollback, gather_prefix_kv and the tensors of tables
--   Kv.Swap       swap_out, swap_in, discard_swapped, is_swapped
--   Kv.Prefix     match_prefix, register_prefix_blocks; Python's hash is a parameter
--   Kv.Books      the allocator's counts with the prefix index, against who holds each block
--   Kv.Ownership  the same for block tables, operation by operation
--   Kv.Safe       what every operation keeps in every state, out of memory included; Sharing has what it
--                 says of two sequences with a common block
--   Sequence      class Sequence, append_token; the guide's automaton is a parameter
--   Speculative   propose_ngram_draft
--   Runtime       the parameters: tensors, floats, guides, random numbers and the model's forward pass
--   Model         the cache calls of prefill_with_cache, continue_prefill,
--                 prefill_with_cache_and_prefix_reuse and decode_step_batch
--   Model.Prefill what the prefills run and leave in the cache; Model.Layered has the calls of the cache and the
--                 layers together, Model.Layered.Prompt a whole prompt
--   Llama         LlamaAttention, LlamaMLP, LlamaDecoderLayer, LlamaModel and LlamaForCausalLM, row by
--                 row: forward, continue_prefill and, in Llama.Decode, decode_step_batch and
--                 decode_step_graphable. Cached has the tensors' contents, Causal and Attend the masks,
--                 Spec one pass with an adapter, Prefill a chunk, Chunks and Naive a whole prompt
--   BeamSearch    class BeamGroup; BeamSearch.Settle has the end of its step
--   Scheduler     class Scheduler: Prefill has admission, chunked prefill and swapping in, Decode has
--                 speculative and batched decoding (Decode.Accept a whole speculative step), Step has step and run_to_completion, Preempt and
--                 Cancel have what a preemption and a cancellation leave
--   Api           StopStringFilter (src/wllm/api/stop_strings.py), RateLimitMiddleware
--                 (src/wllm/api/rate_limit.py), APIKeyAuthMiddleware (src/wllm/api/auth.py),
--                 parse_tool_calls (src/wllm/api/tool_calls.py), and the completion handlers in
--                 Api.Server (src/wllm/api/server.py) with Api.Schemas (src/wllm/api/schemas.py)
--   GraphDecoder  class CUDAGraphDecoder (src/wllm/engine/cuda_graph_decoder.py); GraphDecoder.Bucket has
--                 its buckets
--   Engine        class AsyncEngine (src/wllm/engine/async_engine.py); Engine.Loop has the loop task and
--                 the calls cut at their awaits, Engine.Report and Engine.Failure what callers receive,
--                 Engine.Release what is left of a call that was given up, Engine.Reach the steps of the
--                 engine in any order
--   Quant         Dequant has dequantize (src/wllm/quant/dequant.py) and its values against the formats'
--                 layouts, Gguf the tensor names and Weights the sorting of tensors and QuantizedLinear
--                 (src/wllm/quant/gguf_loader.py, quant_linear.py)
--   Lora          LoRARegistry and apply_lora_delta (src/wllm/engine/lora.py)
--   Sampling      sample (src/wllm/engine/sampling.py)
--   ModelConfig   ModelConfig (src/wllm/models/config.py) and resolve_model_class
--                 (src/wllm/models/registry.py)
--   Detokenizer   IncrementalDetokenizer (src/wllm/engine/detokenizer.py)
--   Tests         a small memory, runs, and each conditional result at one input
--
-- Conventions. Token ids, blocks and lengths are natural numbers, sequence ids and hashes are integers.
-- A Python exception is an `Error`; `out_of_memory` is the RuntimeError that the allocator raises and the
-- scheduler catches by its message. Sequences are shared objects in Python: the scheduler's lists hold
-- ids, and a store maps an id to the object. The loops run on the lists they walk; the retry loop of
-- _decode_active runs on the length of the batch, which each round shortens by one, and
-- run_to_completion on max_steps, as in the source. The search for tool calls runs on the length of the
-- text, as each match is shorter than what is left of it.
--
-- The engine's steps (Engine.Reach) are those between two awaits: starting it, submitting a request or a
-- beam search, a round of the loop, taking a result, giving a call up, cancelling. They come in any order.
-- The first state is a new engine over a scheduler whose cache is in order and whose queues are empty.
--
-- The layers work on rows, one for each token. What PyTorch does with a row (projections, norms, rotary
-- embeddings, the attention kernel) is a parameter. Of scaled_dot_product_attention, of index_copy_
-- (for indices of which none is listed twice) and of the cast to float32 and back the documented meaning is assumed (TorchLaws, IndexCopyLaws): real
-- arithmetic, without the rounding in which two kernels may differ. The block table of a chunk is the one
-- that `reserve` has extended, as the source keeps a reference to the list.
--
-- Not modelled: the arithmetic inside a row, CUDA kernels, the construction of the models and the reading of
-- checkpoints, Gemma's and Qwen2's variants, the generate functions, the other routes and the lifespan of the
-- HTTP server, metrics, embeddings, the scripts, and asyncio's event loop.
pub mod Api
pub mod Base
pub mod BeamSearch
pub mod Detokenizer
pub mod Engine
pub mod GraphDecoder
pub mod Kv
pub mod Llama
pub mod Lora
pub mod Model
pub mod ModelConfig
pub mod Quant
pub mod Runtime
pub mod Sampling
pub mod Scheduler
pub mod Sequence
pub mod Speculative
pub mod Tests
