-- ===== src/EmbeddingIndexer.antt =====
-- The service embedding-indexer (services/embedding-indexer/src/embedding_indexer/service.py): it asks
-- for a vector of the narrative of each window, and keeps it in a collection behind an alias.
pub mod Vectors
pub mod Qdrant
pub mod Service
pub mod Collections
pub mod Index
pub mod Answers
mod Tests
