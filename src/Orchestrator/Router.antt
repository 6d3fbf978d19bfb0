-- ===== src/Orchestrator/Router.antt =====
-- llm.py: the router of the analysis, which asks two providers in turn and falls back on heuristics.
pub mod Signals
pub mod Heuristic
pub mod Sanitize
pub mod Translation
pub mod Analyze
pub mod Grounding
pub mod Scores
pub mod Fallback
mod Tests
pub mod Wiring
