-- ===== src/PersonaBuilder.antt =====
-- The service persona-builder (services/persona-builder/src/persona_builder): the organizations and
-- topics of a person, gathered from the person's messages.
pub mod Aggregator
pub mod Consumer
pub mod Caps
mod Tests
