-- ===== src/Tests.antt =====
-- Runs of the model on small inputs, and each result at an input where its conditions hold.
mod Toy
mod Cache
mod Engine
mod Beams
mod Prefill
mod Preempt
mod Web
mod Pool
mod Stream
mod Graph
mod Quant
mod Adapters
mod Sampler
mod Gguf
mod Chat
mod Reach
mod Layers
mod Draft
