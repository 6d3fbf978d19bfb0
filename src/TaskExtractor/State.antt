-- ===== src/TaskExtractor/State.antt =====
-- The tables and streams that the task-extractor reads and writes. Rows stand in the order of their
-- insertion, which is that of `created_at`; ids are drawn from a counter, so that they differ.
use personal_intelligence.Base.{ℕ, Bool, Option, List, [], Text, text, ℤ}
use personal_intelligence.Contracts.{ChatType, MessageRef, TaskCreatedEvent, TaskResolvedEvent}
use personal_intelligence.Store.Ledger.{Ledger}

pub data Status : Type 0 where
  opened done dropped : Status

pub record Task : Type 0 where
  pub id : ℕ
  pub title : Text
  pub description : Option Text
  pub owner_person_id : Option ℕ
  pub counterpart_person_id : Option ℕ
  pub chat_id : Option ℕ
  pub source : MessageRef
  pub due_at : Option ℕ
  pub status : Status
  pub priority : ℕ
  pub confidence : ℕ
  pub evidence : Option Text
  pub resolved_at : Option ℕ
  pub updated_at : ℕ

pub record Person : Type 0 where
  pub id : ℕ
  pub tg_user_id : Option ℤ
  pub username : Option Text
  pub display_name : Text
  pub is_owner : Bool
  pub updated_at : ℕ

pub record Chat : Type 0 where
  pub id : ℕ
  pub tg_chat_id : ℤ
  pub kind : ChatType
  pub title : Option Text

pub data Published : Type 0 where
  task_created : TaskCreatedEvent → Published
  task_resolved : TaskResolvedEvent → Published

-- An entry of the dead-letter stream, without its JSON of the fields.
pub record DeadLetter : Type 0 where
  pub stream : Text
  pub msg_id : Text

pub record State : Type 0 where
  pub clock : ℕ
  pub next_id : ℕ
  pub processed : Ledger
  pub tasks : List Task
  pub persons : List Person
  pub chats : List Chat
  pub published : List Published
  pub dead_letters : List DeadLetter
  pub acked : List Text

abbrev pub init : State
init = record {
  clock = 0;
  next_id = 1;
  processed = [];
  tasks = [];
  persons = [];
  chats = [];
  published = [];
  dead_letters = [];
  acked = [];
}

abbrev pub consumer_name : Text
consumer_name = text "task-extractor"
