-- ===== src/Orchestrator/State.antt =====
-- What the handlers of the ai-orchestrator read and write: the table of handled events, the stored
-- windows, the Redis lists of the open windows, and the streams.
use personal_intelligence.Base.{
  ℕ, Option, none, List, [], Text, text, ℤ, int_eq, ◌==◌, if◌then◌else◌,
}
use personal_intelligence.Contracts.{
  ChatType, WindowMessagePayload, TelegramPreprocessedEvent, AiAnalysisCompletedEvent,
  AnalyticsSignalEvent, ProjectionCommand,
}
use personal_intelligence.Store.Ledger.{Ledger}
use personal_intelligence.Store.RedisList.{RedisList, absent}
use personal_intelligence.Orchestrator.Coerce.{Json}

pub data Published : Type 0 where
  preprocessed : TelegramPreprocessedEvent → Published
  completed : AiAnalysisCompletedEvent → Published
  signalled : AnalyticsSignalEvent → Published
  projection : ProjectionCommand → Published

-- A row of `analysis_window`, as the reprocessing reads it: its messages are not decoded yet.
pub record StoredWindow : Type 0 where
  pub tg_chat_id : ℤ
  pub chat_type : ChatType
  pub messages : Json

-- `windows` is the lists `pil:ai-orchestrator:<chat>:window`, by the chat; `clock` is Redis' time;
-- `published` and `acked` are in the order of the calls.
pub record State : Type 0 where
  pub clock : ℕ
  pub processed : Ledger
  pub windows : ℤ → RedisList WindowMessagePayload
  pub analysis_windows : Text → Option StoredWindow
  pub published : List Published
  pub uuids_drawn : ℕ
  pub acked : List Text

abbrev pub update {ℓ} : {A : Type ℓ} → (ℤ → A) → ℤ → A → ℤ → A
update f k v j = if k == j then v else f j

abbrev pub init : State
init = record {
  clock = 0;
  processed = [];
  windows = λ chat. absent;
  analysis_windows = λ id. none;
  published = [];
  uuids_drawn = 0;
  acked = [];
}

abbrev pub consumer_name : Text
consumer_name = text "ai-orchestrator"
