-- ===== src/Memory.antt =====
-- The memory (omniai/memory): the log of interactions, and the cycle that trains adapters on it.
pub mod Buffer
pub mod Pairs
pub mod Learning
pub mod Curation
pub mod Skills
pub mod Rehearsal
