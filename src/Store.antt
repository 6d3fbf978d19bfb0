-- ===== src/Store.antt =====
-- The stores that the services share: the table of handled events and Redis lists that expire.
pub mod Ledger
pub mod RedisList
pub mod Interactions
