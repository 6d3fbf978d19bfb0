-- ===== src/MemoryProjector/Tables.antt =====
-- The tables that the memory-projector writes, and the state of the service. Rows stand in the order of
-- their insertion; ids are drawn from a counter, so that they differ; `updated_at` is the time of the
-- transaction.
use personal_intelligence.Base.{ℕ, Bool, Option, List, [], Text, ℤ}
use personal_intelligence.Contracts.{
  ChatType, WindowMessagePayload, MessageFeatureSet, StructuredAnalysisResult, StructuredClaim,
  AnalyticsSignal, EmbeddingJob, InteractionUpdatedEvent, ProjectionCommand,
}
use personal_intelligence.Store.Ledger.{Ledger}
use personal_intelligence.Store.Interactions.{Interaction}

pub record Chat : Type 0 where
  pub id : ℕ
  pub tg_chat_id : ℤ
  pub kind : ChatType
  pub title : Option Text

pub record Person : Type 0 where
  pub id : ℕ
  pub tg_user_id : ℤ
  pub username : Option Text
  pub display_name : Text
  pub topics : List Text
  pub last_interaction_at : Option ℕ
  pub is_owner : Bool
  pub updated_at : ℕ

pub record Membership : Type 0 where
  pub chat_id : ℕ
  pub person_id : ℕ

-- The JSON columns are the values that they hold; `source_message_ids`, `summary` and `confidence` are
-- parts of them.
pub record Window : Type 0 where
  pub id : Text
  pub chat_id : ℕ
  pub tg_chat_id : ℤ
  pub participant_tg_ids : List ℤ
  pub chat_type : ChatType
  pub window_start : ℕ
  pub window_end : ℕ
  pub messages : List WindowMessagePayload
  pub features : MessageFeatureSet
  pub analysis_payload : StructuredAnalysisResult

pub record Fact : Type 0 where
  pub window_id : Text
  pub claim : StructuredClaim

pub record Signal : Type 0 where
  pub window_id : Text
  pub tg_chat_id : ℤ
  pub signal : AnalyticsSignal

pub data Status : Type 0 where
  opened done dropped : Status

pub record Task : Type 0 where
  pub id : ℕ
  pub title : Text
  pub description : Option Text
  pub owner_person_id : Option ℕ
  pub counterpart_person_id : Option ℕ
  pub chat_id : ℕ
  pub tg_message_id : ℤ
  pub due_at : Option ℕ
  pub status : Status
  pub priority : ℕ
  pub confidence : ℕ
  pub evidence : Option Text
  pub updated_at : ℕ

pub record Audit : Type 0 where
  pub target : Text
  pub request_id : Option Text
  pub tg_chat_id : ℤ
  pub source_event_id : Text
  pub topics : List Text

-- What a transaction may take back.
pub record Db : Type 0 where
  pub clock : ℕ
  pub next_id : ℕ
  pub processed : Ledger
  pub chats : List Chat
  pub persons : List Person
  pub memberships : List Membership
  pub windows : List Window
  pub facts : List Fact
  pub signals : List Signal
  pub tasks : List Task
  pub interactions : List Interaction
  pub audits : List Audit

pub data Published : Type 0 where
  embedding_requested : EmbeddingJob → Published
  interaction_updated : InteractionUpdatedEvent → Published

pub record Artifact : Type 0 where
  pub key : Text
  pub command : ProjectionCommand

abbrev pub empty_db : Db
empty_db = record {
  clock = 0;
  next_id = 1;
  processed = [];
  chats = [];
  persons = [];
  memberships = [];
  windows = [];
  facts = [];
  signals = [];
  tasks = [];
  interactions = [];
  audits = [];
}
