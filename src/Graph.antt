-- ===== src/Graph.antt =====
-- Agent graphs (omniai/graph): the state, the builder, the executor and the tool-calling agent.
pub mod State
pub mod Builder
pub mod Executor
pub mod Agent
pub mod Tools
mod Tests
