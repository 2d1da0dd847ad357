-- ===== src/Evals.antt =====
-- The judging of adapters before they are deployed (omniai/evals).
pub mod Gate
