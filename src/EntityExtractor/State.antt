-- ===== src/EntityExtractor/State.antt =====
-- The tables that the entity-extractor reads and writes, and its streams.
use personal_intelligence.Base.{ℕ, Bool, Option, List, [], Text, text, ℤ}
use personal_intelligence.Exec.{Error}
use personal_intelligence.Contracts.{EntityFoundEvent, MessageRef}
use personal_intelligence.Store.Ledger.{Ledger}

pub record Person : Type 0 where
  pub id : ℕ
  pub tg_user_id : Option ℤ
  pub display_name : Text
  pub blocked : Bool

pub record Chat : Type 0 where
  pub id : ℕ
  pub tg_chat_id : ℤ

pub record Topic : Type 0 where
  pub slug : Text
  pub display_name : Text

pub record Mention : Type 0 where
  pub chat_id : ℕ
  pub speaker_person_id : ℕ
  pub mentioned_person_id : ℕ
  pub message_ref : MessageRef
  pub context : Option Text

-- `persons` and `chats` are written by other services; `dead_letters` is the ids in the stream of entries
-- that failed, each with its error.
pub record State : Type 0 where
  pub processed : Ledger
  pub persons : List Person
  pub chats : List Chat
  pub topics : List Topic
  pub mentions : List Mention
  pub published : List EntityFoundEvent
  pub dead_letters : List (Text × Error)
  pub acked : List Text

abbrev pub init : State
init = record {
  processed = [];
  persons = [];
  chats = [];
  topics = [];
  mentions = [];
  published = [];
  dead_letters = [];
  acked = [];
}

abbrev pub consumer_name : Text
consumer_name = text "entity-extractor"
