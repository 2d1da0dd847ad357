-- ===== src/Engine.antt =====
-- The serving engine (omniai/engine): reliability, adapters and the client facade.
pub mod Breaker
pub mod Retry
pub mod Registry
pub mod Client
pub mod Supervisor
pub mod Config
pub mod Backends
pub mod Startup
pub mod Streaming
