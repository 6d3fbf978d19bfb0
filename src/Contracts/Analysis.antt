-- ===== src/Contracts/Analysis.antt =====
-- The window of messages that is analysed, its features and the structured result (events.py), and
-- the commands between the orchestrator and its neighbours (commands.py).
use personal_intelligence.Base.{ℕ, Bool, Option, List, Text, ℤ}
use personal_intelligence.Contracts.Telegram.{ChatType}

pub record WindowMessagePayload : Type 0 where
  pub tg_message_id : ℤ
  pub tg_sender_id : Option ℤ
  pub tg_sender_name : Option Text
  pub tg_sender_username : Option Text
  pub content : Text
  pub reply_to_message_id : Option ℤ
  pub media_type : Option Text
  pub is_forwarded : Bool
  pub occurred_at : ℕ

pub data Sentiment : Type 0 where
  positive negative neutral mixed : Sentiment

pub data WindowKind : Type 0 where
  single rolling time_window : WindowKind

pub record MessageFeatureSet : Type 0 where
  pub chat_type : ChatType
  pub message_count : ℕ
  pub participant_count : ℕ
  pub participant_tg_ids : List ℤ
  pub author_activity : List (ℤ × ℕ)
  pub mention_handles : List Text
  pub links : List Text
  pub emails : List Text
  pub phones : List Text
  pub keyword_candidates : List Text
  pub sentiment_hint : Sentiment
  pub attachment_count : ℕ
  pub forwarded_count : ℕ
  pub reply_count : ℕ
  pub median_response_latency_sec : Option ℕ
  pub window_kind : WindowKind

pub data ClaimKind : Type 0 where
  fact relationship contact topic : ClaimKind

pub record StructuredClaim : Type 0 where
  pub kind : ClaimKind
  pub subject : Option Text
  pub predicate : Text
  pub object : Option Text
  pub claim : Text
  pub confidence : ℕ
  pub evidence_message_ids : List ℤ
  pub caveats : List Text

pub record StructuredTask : Type 0 where
  pub title : Text
  pub description : Option Text
  pub priority : ℕ
  pub due_at : Option ℕ
  pub confidence : ℕ
  pub evidence_message_ids : List ℤ
  pub caveats : List Text

pub data SignalKind : Type 0 where
  responsiveness initiative_balance topic_drift conversation_health friction activity : SignalKind

pub record AnalyticsSignal : Type 0 where
  pub kind : SignalKind
  pub score : ℕ
  pub summary : Text
  pub evidence_message_ids : List ℤ
  pub payload : Text

pub record StructuredAnalysisResult : Type 0 where
  pub source_window_id : Text
  pub summary : Text
  pub topics : List Text
  pub participants : List ℤ
  pub claims : List StructuredClaim
  pub tasks : List StructuredTask
  pub analytics_signals : List AnalyticsSignal
  pub confidence : ℕ
  pub caveats : List Text

pub record ProjectionCommand : Type 0 where
  pub source_window_id : Text
  pub source_event_id : Text
  pub tg_chat_id : ℤ
  pub messages : List WindowMessagePayload
  pub features : MessageFeatureSet
  pub result : StructuredAnalysisResult
  pub trace_id : Option Text

pub record ReprocessWindowCommand : Type 0 where
  pub command_id : Text
  pub window_id : Text
  pub trace_id : Option Text

pub record TelegramPreprocessedEvent : Type 0 where
  pub source_event_id : Text
  pub tg_chat_id : ℤ
  pub source_window_id : Text
  pub messages : List WindowMessagePayload
  pub features : MessageFeatureSet
  pub trace_id : Option Text

pub record AiAnalysisCompletedEvent : Type 0 where
  pub source_event_id : Text
  pub tg_chat_id : ℤ
  pub source_window_id : Text
  pub result : StructuredAnalysisResult
  pub trace_id : Option Text

pub record AnalyticsSignalEvent : Type 0 where
  pub source_window_id : Text
  pub tg_chat_id : ℤ
  pub signal : AnalyticsSignal
  pub trace_id : Option Text
