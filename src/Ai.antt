-- ===== src/Ai.antt =====
-- The retrieval sidecar, taxcalc-ai.
pub mod Chunker
pub mod Ingest
pub mod Cache
pub mod Mmr
pub mod Sorting
pub mod Hybrid
pub mod Rag
pub mod Rerank
