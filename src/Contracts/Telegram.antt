-- ===== src/Contracts/Telegram.antt =====
-- What the ingestor publishes (events.py, base.py), with the fields that every event has.
use personal_intelligence.Base.{ℕ, Bool, Option, List, Text, ℤ}

pub data ChatType : Type 0 where
  private group supergroup channel : ChatType

pub record TelegramMessageEvent : Type 0 where
  pub event_id : Text
  pub occurred_at : ℕ
  pub trace_id : Option Text
  pub tg_chat_id : ℤ
  pub tg_message_id : ℤ
  pub tg_sender_id : Option ℤ
  pub tg_sender_username : Option Text
  pub tg_sender_name : Option Text
  pub chat_title : Option Text
  pub chat_type : ChatType
  pub content : Option Text
  pub media_type : Option Text
  pub reply_to_message_id : Option ℤ
  pub is_forwarded : Bool
  pub tg_date : Option ℕ

pub record TelegramMessageEditedEvent : Type 0 where
  pub event_id : Text
  pub occurred_at : ℕ
  pub trace_id : Option Text
  pub tg_chat_id : ℤ
  pub tg_message_id : ℤ
  pub new_text : Option Text

pub record TelegramMessageDeletedEvent : Type 0 where
  pub event_id : Text
  pub occurred_at : ℕ
  pub trace_id : Option Text
  pub tg_chat_id : ℤ
  pub tg_message_ids : List ℤ
