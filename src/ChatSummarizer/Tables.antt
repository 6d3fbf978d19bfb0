-- ===== src/ChatSummarizer/Tables.antt =====
-- The tables that the chat-summarizer writes in its transaction, and the table of tasks, which it reads.
-- Rows stand in the order of their insertion.
use personal_intelligence.Base.{ℕ, Option, List, Text, ℤ}
use personal_intelligence.Contracts.{ChatType}
use personal_intelligence.Store.Interactions.{Interaction}

pub record Chat : Type 0 where
  pub id : ℕ
  pub tg_chat_id : ℤ
  pub kind : ChatType
  pub title : Option Text

pub record Person : Type 0 where
  pub id : ℕ
  pub tg_user_id : ℤ
  pub display_name : Text

-- A task, with the message that it comes from
pub record TaskRef : Type 0 where
  pub id : ℕ
  pub tg_chat_id : ℤ
  pub tg_message_id : ℤ

pub record Db : Type 0 where
  pub next_id : ℕ
  pub chats : List Chat
  pub persons : List Person
  pub tasks : List TaskRef
  pub interactions : List Interaction
