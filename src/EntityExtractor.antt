-- ===== src/EntityExtractor.antt =====
-- The service entity-extractor (services/entity-extractor/src/entity_extractor): the people,
-- organizations and topics that a message names, reconciled with the people who are known.
pub mod Extractor
pub mod State
pub mod Reconcile
pub mod Consumer
pub mod Mentions
pub mod Distinct
mod Tests
