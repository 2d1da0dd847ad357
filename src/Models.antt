-- ===== src/Models.antt =====
-- Chat models (omniai/models): the wire format of a conversation, and the loop of structured output.
pub mod Wire
pub mod Anthropic
pub mod Providers
pub mod Structured
