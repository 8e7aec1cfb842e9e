-- ===== src/Quant.antt =====
-- Quantised weights: src/wllm/quant/.
pub mod Dequant
pub mod Gguf
pub mod Weights
