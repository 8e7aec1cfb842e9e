-- ===== src/Kv.antt =====
-- src/wllm/engine/kv_cache.py: the block-based KV cache.
pub mod Allocator
pub mod Storage
pub mod Manager
pub mod Swap
pub mod Prefix
pub mod Slots
pub mod Books
pub mod Ownership
pub mod Safe
