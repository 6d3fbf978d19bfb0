-- ===== src/TelegramIngestor.antt =====
-- The service telegram-ingestor (services/telegram-ingestor/src/telegram_ingestor/handlers.py): each update
-- of Telegram becomes an event, and the raw message an object.
pub mod Update
pub mod Handlers
pub mod Stored
mod Tests
