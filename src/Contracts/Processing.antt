-- ===== src/Contracts/Processing.antt =====
-- What the extractors and the summarizer publish (events.py).
use personal_intelligence.Base.{ℕ, Option, List, Text, ℤ}
use personal_intelligence.Contracts.Analysis.{Sentiment}

pub data EntityKind : Type 0 where
  person organization topic : EntityKind

pub record EntityCandidate : Type 0 where
  pub kind : EntityKind
  pub surface : Text
  pub normalized : Text
  pub confidence : ℕ
  pub person_id : Option ℕ

pub record EntityFoundEvent : Type 0 where
  pub event_id : Text
  pub occurred_at : ℕ
  pub source_event_id : Text
  pub tg_chat_id : ℤ
  pub tg_message_id : ℤ
  pub tg_sender_id : Option ℤ
  pub language : Text
  pub entities : List EntityCandidate
  pub trace_id : Option Text

pub record PersonUpdatedEvent : Type 0 where
  pub person_id : ℕ
  pub tg_user_id : Option ℤ
  pub display_name : Text
  pub organizations : List Text
  pub topics : List Text
  pub trust_score : ℕ
  pub trace_id : Option Text

pub record MessageRef : Type 0 where
  pub tg_chat_id : ℤ
  pub tg_message_id : ℤ

pub record TaskCreatedEvent : Type 0 where
  pub task_id : ℕ
  pub title : Text
  pub owner_person_id : Option ℕ
  pub counterpart_person_id : Option ℕ
  pub due_at : Option ℕ
  pub source_message_ref : MessageRef
  pub confidence : ℕ
  pub evidence : Option Text
  pub trace_id : Option Text

pub data Resolution : Type 0 where
  done dropped : Resolution

pub record TaskResolvedEvent : Type 0 where
  pub task_id : ℕ
  pub resolution : Resolution
  pub evidence : Option Text
  pub trace_id : Option Text

pub record InteractionUpdatedEvent : Type 0 where
  pub interaction_id : ℕ
  pub chat_id : ℕ
  pub window_start : ℕ
  pub window_end : ℕ
  pub participants : List ℕ
  pub topics : List Text
  pub sentiment : Sentiment
  pub summary : Text
  pub task_ids : List ℕ
  pub trace_id : Option Text

pub record EmbeddingJob : Type 0 where
  pub source_window_id : Text
  pub tg_chat_id : ℤ
  pub analysis_window_id : Text
  pub person_ids : List ℕ
  pub topic_tags : List Text
  pub narrative_text : Text
  pub profile_provider : Text
  pub profile_model : Text
  pub profile_alias : Text
  pub trace_id : Option Text
