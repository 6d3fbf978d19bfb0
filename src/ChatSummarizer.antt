-- ===== src/ChatSummarizer.antt =====
-- The service chat-summarizer (services/chat-summarizer/src/chat_summarizer): it collects the messages
-- of a chat in a window, follows their edits, and writes an interaction for each window.
pub mod Tables
pub mod Windows
pub mod Edits
pub mod Heuristics
pub mod Engine
pub mod Queries
pub mod Consumer
pub mod Unique
pub mod Flush
mod Tests
