-- ===== src/Retrieval.antt =====
-- Retrieval (omniai/rag/store.py): the cutting of texts, the store and the retriever.
pub mod Chunks
pub mod Store
mod Tests
