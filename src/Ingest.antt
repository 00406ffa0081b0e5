-- ===== src/Ingest.antt =====
-- internal/ingest: which documents can be read, and how their text is cut into chunks.
pub mod Chunker
pub mod Kinds
