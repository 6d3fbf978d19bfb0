-- ===== src/Maintenance.antt =====
-- The service maintenance (services/maintenance/src/maintenance): the monthly partitions of the tables
-- that grow, and the removal of old rows.
pub mod Partitions
pub mod Jobs
pub mod Tiling
pub mod Trimming
mod Tests
