-- ===== src/Orchestrator.antt =====
-- The service ai-orchestrator (services/ai-orchestrator/src/ai_orchestrator): it collects the
-- messages of a chat in a window, analyses full and finished windows and publishes the results.
pub mod Settings
pub mod Rollover
pub mod Graph
pub mod Features
pub mod Summary
pub mod Router
pub mod Counting
pub mod Backfill
pub mod Replay
pub mod Coerce
pub mod State
pub mod Consumer
pub mod Conservation
pub mod Delivery
pub mod Loss
pub mod Bounds
pub mod Acks
pub mod Reprocess
mod Tests
