-- ===== src/Api.antt =====
-- The middleware, the text filters and the completion handlers of src/wllm/api.
pub mod StopStrings
pub mod RateLimit
pub mod Auth
pub mod ToolCalls
pub mod Schemas
pub mod Server
