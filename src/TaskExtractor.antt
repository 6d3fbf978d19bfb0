-- ===== src/TaskExtractor.antt =====
-- The service task-extractor (services/task-extractor/src/task_extractor): it finds promises and
-- requests in messages, and follows the tasks that they become.
pub mod Rules
pub mod State
pub mod Consumer
pub mod Keeping
pub mod Lifecycle
pub mod Sources
pub mod Redelivery
mod Tests
