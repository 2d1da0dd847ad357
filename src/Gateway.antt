-- ===== src/Gateway.antt =====
-- The gateway (omniai/gateway): rate limits, authentication, and body caps.
pub mod RateLimit
pub mod Security
pub mod BodyLimit
pub mod Adapters
pub mod Router
pub mod Observability
