-- ===== src/MemoryProjector.antt =====
-- The service memory-projector (services/memory-projector/src/memory_projector): it writes an analysis
-- into the tables of the memory, in one transaction, and announces it.
pub mod Tables
pub mod Owner
pub mod People
pub mod Windows
pub mod Tasks
pub mod Interactions
pub mod Graph
pub mod Consumer
pub mod Steps
pub mod Atomic
pub mod Rows
pub mod Unique
pub mod Merging
pub mod Participants
mod Tests
