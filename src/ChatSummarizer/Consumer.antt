-- ===== src/ChatSummarizer/Consumer.antt =====
-- `_flush_window`, `_handle_message` and the loop of consumer.py. The summary and the object store may
-- raise; an exception takes the transaction back, and nothing else.
use personal_intelligence.Base.{
  ℕ, Bool, false, ◌||◌, Option, none, some, List, [], ◌∷◌, ◌++◌, map, length, is_empty, get_last?,
  Text, text, ℤ, leb, show_nat, if◌then◌else◌,
}
use personal_intelligence.Exec.{
  Result, ok, err, Exec, pure, raise, lift, gets, modify, when, ◌>>=◌, ◌>>◌,
}
use personal_intelligence.Contracts.{
  TelegramMessageEvent, TelegramMessageEditedEvent, InteractionUpdatedEvent,
}
use personal_intelligence.Store.RedisList
use personal_intelligence.Store.RedisList.{RedisList, absent}
use personal_intelligence.Store.Interactions.{Interaction}
use personal_intelligence.Orchestrator.Rollover.{needs_rollover}
use personal_intelligence.ChatSummarizer.Tables.{Db}
use personal_intelligence.ChatSummarizer.Windows.{
  WindowMessage, State, is_processed, mark_processed, stripped, window_ttl, replace_at,
  handle_edited_message,
}
use personal_intelligence.ChatSummarizer.Heuristics.{SummaryResult}
use personal_intelligence.ChatSummarizer.Engine.{Engine, summarize}
use personal_intelligence.ChatSummarizer.Queries.{
  ensure_chat, refresh_chat_metadata, ensure_participants, find_window_task_ids, upsert_interaction,
  set_interaction_object_ref,
}

pub record Settings : Type 0 where
  pub summarizer_strategy : Text
  pub summarizer_window_size : ℕ
  pub summarizer_time_window_minutes : ℕ

-- The engine, and the object store where it is configured: the reference of what it stores under a key.
pub record Services : Type 0 where
  pub engine : Engine
  pub put_bucket_object : Option (Text → Result Text)

unfoldable pub load_window : ℤ → State → List WindowMessage
load_window chat s = RedisList.lrange s.clock (s.windows chat)

unfoldable pub delete_window : ℤ → State → State
delete_window chat s = record s { windows = replace_at s.windows chat absent }

unfoldable pub on_db : {A : Type 0} → (Db → A × Db) → Exec State A
on_db f s = let (a, db') = f s.db in (ok a, record s { db = db' })

abbrev pub write_db : (Db → Db) → Exec State (Unit {0})
write_db f = modify (λ s. record s { db = f s.db })

-- `async with conn.transaction()`
abbrev pub end_transaction : {A : Type 0} → Db → Result A → State → Result A × State
end_transaction before (ok a) s = (ok a, s)
end_transaction before (err e) s = (err e, record s { db = before })

unfoldable pub transaction : {A : Type 0} → Exec State A → Exec State A
transaction m s = let (r, s') = m s in end_transaction s.db r s'

-- The last of the messages `m ∷ ms`
abbrev pub last_of : WindowMessage → List WindowMessage → WindowMessage
last_of m [] = m
last_of m (n ∷ ms) = last_of n ms

abbrev pub message_ids : List WindowMessage → List ℤ
message_ids messages = map (λ (m : WindowMessage). m.tg_message_id) messages

module _ (services : Services) (chat : ℤ) (trace_id : Option Text) where
  abbrev pub store_object : ℕ → Text → List WindowMessage → Result Text → Exec State (Unit {0})
  store_object id key messages (err e) = raise e
  store_object id key messages (ok object_key) = do
    modify λ s. record s { objects = s.objects ++ (key, messages) ∷ [] }
    write_db (set_interaction_object_ref id object_key)

  abbrev pub object_name : ℕ → Text
  object_name id = text "interaction-windows/" ++ show_nat id ++ text ".json"

  abbrev pub put_object :
      ℕ → List WindowMessage → Option (Text → Result Text) → Exec State (Unit {0})
  put_object id messages none = pure tt
  put_object id messages (some put) =
      store_object id (object_name id) messages (put (object_name id))

  abbrev pub updated_event :
      ℕ
      → ℕ
      → List ℕ
      → List ℕ
      → SummaryResult
      → WindowMessage
      → WindowMessage
      → InteractionUpdatedEvent
  updated_event id chat_id participants task_ids summary first last = record {
    interaction_id = id;
    chat_id = chat_id;
    window_start = first.occurred_at;
    window_end = last.occurred_at;
    participants = participants;
    topics = summary.topics;
    sentiment = summary.sentiment;
    summary = summary.summary;
    task_ids = task_ids;
    trace_id = trace_id;
  }

  abbrev pub interaction_of :
      ℕ → ℕ → List ℕ → List ℕ → SummaryResult → WindowMessage → WindowMessage → Interaction
  interaction_of fresh chat_id participants task_ids summary first last = record {
    id = fresh;
    chat_id = chat_id;
    window_start = first.occurred_at;
    window_end = last.occurred_at;
    participants = participants;
    topics = summary.topics;
    sentiment = summary.sentiment;
    summary = summary.summary;
    tasks = task_ids;
    source_object_ref = none;
  }

  abbrev pub publish : InteractionUpdatedEvent → Exec State (Unit {0})
  publish event = modify (λ s. record s { published = s.published ++ event ∷ [] })

  -- The body of the transaction, for the messages `first ∷ rest`
  unfoldable pub write_interaction :
      WindowMessage → List WindowMessage → SummaryResult → Exec State (Unit {0})
  write_interaction first rest summary = do
    chat_id ← on_db (ensure_chat chat)
    write_db (refresh_chat_metadata chat_id (last_of first rest))
    participants ← on_db (ensure_participants (first ∷ rest))
    task_ids ← gets (λ s. find_window_task_ids chat (message_ids (first ∷ rest)) s.db)
    fresh ← gets (λ s. s.db.next_id)
    id ← on_db (
        upsert_interaction
          (interaction_of fresh chat_id participants task_ids summary first (last_of first rest)))
    put_object id (first ∷ rest) services.put_bucket_object
    publish (updated_event id chat_id participants task_ids summary first (last_of first rest))

  abbrev pub flush_messages : List WindowMessage → Exec State (Unit {0})
  flush_messages [] = pure tt
  flush_messages (first ∷ rest) = do
    summary ← lift (summarize services.engine (first ∷ rest))
    transaction (write_interaction first rest summary)
    modify (delete_window chat)

  unfoldable pub flush_window : Exec State (Unit {0})
  flush_window = do entries ← gets (load_window chat); flush_messages entries

module _ (settings : Settings) (services : Services) where
  abbrev pub or_occurred : Option ℕ → ℕ → ℕ
  or_occurred none occurred = occurred
  or_occurred (some sent) occurred = sent

  abbrev pub payload_of : TelegramMessageEvent → WindowMessage
  payload_of event = record {
    tg_message_id = event.tg_message_id;
    tg_sender_id = event.tg_sender_id;
    tg_sender_name = event.tg_sender_name;
    chat_type = event.chat_type;
    chat_title = event.chat_title;
    content = stripped event.content;
    occurred_at = or_occurred event.tg_date event.occurred_at;
  }

  abbrev pub rolls_over : ℕ → Option WindowMessage → Bool
  rolls_over occurred_at none = false
  rolls_over occurred_at (some last) =
      needs_rollover last.occurred_at occurred_at settings.summarizer_strategy
        settings.summarizer_time_window_minutes

  unfoldable pub should_roll_window : ℤ → ℕ → State → Bool
  should_roll_window chat occurred_at s = rolls_over occurred_at (get_last? (load_window chat s))

  unfoldable pub store_message : ℤ → WindowMessage → State → State
  store_message chat m s = record s {
    windows = replace_at s.windows chat (
        RedisList.expire s.clock (window_ttl settings.summarizer_time_window_minutes)
          (RedisList.rpush s.clock m (s.windows chat)));
  }

  unfoldable pub accept_message : TelegramMessageEvent → Exec State (Unit {0})
  accept_message event = do
    rolls ← gets (should_roll_window event.tg_chat_id (payload_of event).occurred_at)
    when rolls (flush_window services event.tg_chat_id event.trace_id)
    modify (store_message event.tg_chat_id (payload_of event))
    size ← gets (λ s. length (load_window event.tg_chat_id s))
    when (leb settings.summarizer_window_size size)
        (flush_window services event.tg_chat_id event.trace_id)

  unfoldable pub handle_message : TelegramMessageEvent → Exec State (Unit {0})
  handle_message event = do
    seen ← gets (is_processed event.event_id)
    if is_empty (stripped event.content) || seen
        then pure tt
        else do modify (mark_processed event.event_id); accept_message event

-- What the two streams carry, and an entry of another
pub data Incoming : Type 0 where
  message : TelegramMessageEvent → Incoming
  message_edited : TelegramMessageEditedEvent → Incoming
  unknown_stream : Incoming

-- An entry, with the decoding of its payload and Redis' time.
pub record Entry : Type 0 where
  pub msg_id : Text
  pub payload : Result Incoming
  pub read_at : ℕ

module _ (settings : Settings) (services : Services) where
  unfoldable pub process_stream : Incoming → Exec State (Unit {0})
  process_stream (message event) = handle_message settings services event
  process_stream (message_edited event) =
      modify (handle_edited_message settings.summarizer_time_window_minutes event)
  process_stream unknown_stream = pure tt

  abbrev pub process_payload : Result Incoming → Exec State (Unit {0})
  process_payload (err e) = raise e
  process_payload (ok incoming) = process_stream incoming

  -- An exception puts the entry on the stream of dead letters.
  abbrev pub settle : Text → Result (Unit {0}) → State → State
  settle msg_id (ok done) s = s
  settle msg_id (err e) s = record s { dead_letters = s.dead_letters ++ msg_id ∷ [] }

  unfoldable pub deliver : Entry → State → State
  deliver entry s =
      let (result, after) = process_payload entry.payload (record s { clock = entry.read_at }) in
      let settled = settle entry.msg_id result after in
      record settled { acked = settled.acked ++ entry.msg_id ∷ [] }

  unfoldable pub run_entries : List Entry → State → State
  unfolding deliver
  run_entries [] s = s
  run_entries (entry ∷ entries) s = run_entries entries (deliver entry s)

  unfoldable pub run : List (Result (List Entry)) → State → State
  unfolding run_entries
  run [] s = s
  run (err e ∷ reads) s = run reads s
  run (ok entries ∷ reads) s = run reads (run_entries entries s)
