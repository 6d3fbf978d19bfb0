-- ===== src/Orchestrator/Consumer.antt =====
-- The handlers and the loop of consumer.py. `_load_canonical_context` is the graph's context loader,
-- a parameter, as are the UUIDs that `build_window_id` draws and pydantic's decoding of a payload.
pub mod Emit
use personal_intelligence.Base.{
  ℕ, suc, ◌+◌, ◌*◌, max, Bool, true, false, not, ◌&&◌, Option, none, some, List, [], ◌∷◌, ◌++◌,
  Text, text, text_eq, ℤ, ◌==◌, leb, is_empty, strip, length, get_last?, if◌then◌else◌,
}
use personal_intelligence.Exec.{
  Error, Result, Exec, pure, lift, gets, modify, ◌>>=◌, ◌>>◌, when, for_each,
}
use personal_intelligence.Contracts.{
  ChatType, TelegramMessageEvent, WindowMessagePayload, ReprocessWindowCommand, AnalyticsSignal,
}
use personal_intelligence.Store.Ledger
use personal_intelligence.Store.RedisList
use personal_intelligence.Store.RedisList.{RedisList, absent}
use personal_intelligence.Orchestrator.Settings.{Settings}
use personal_intelligence.Orchestrator.Rollover.{needs_rollover}
use personal_intelligence.Orchestrator.Graph.{Externals, AnalysisInput, Analysis, run_graph}
use personal_intelligence.Orchestrator.Coerce.{JsonTools, coerce_window_messages}
use personal_intelligence.Orchestrator.State.{
  Published, preprocessed, completed, signalled, projection, StoredWindow, State, update,
  consumer_name,
}

unfoldable pub is_processed : Text → Exec State Bool
is_processed event_id = gets (λ s. Ledger.is_processed consumer_name event_id s.processed)

unfoldable pub mark_processed : Text → Exec State Unit
mark_processed event_id =
    modify (λ s. record s { processed = Ledger.mark_processed consumer_name event_id s.processed })

unfoldable pub load_window_messages : ℤ → Exec State (List WindowMessagePayload)
load_window_messages chat = gets (λ s. RedisList.lrange s.clock (s.windows chat))

unfoldable pub delete_window : ℤ → Exec State Unit
delete_window chat = modify (λ s. record s { windows = update s.windows chat absent })

unfoldable pub publish : Published → Exec State Unit
publish p = modify (λ s. record s { published = s.published ++ p ∷ [] })

abbrev pub window_ttl : Settings → ℕ
window_ttl settings = max (settings.analysis_time_window_minutes * 60) 3600

-- The new length of the window.
unfoldable pub store_window_message : Settings → ℤ → WindowMessagePayload → Exec State ℕ
store_window_message settings chat payload = do
  modify λ s. record s {
    windows = update s.windows chat (RedisList.rpush s.clock payload (s.windows chat));
  }
  modify λ s. record s {
    windows =
        update s.windows chat (RedisList.expire s.clock (window_ttl settings) (s.windows chat));
  }
  gets (λ s. length (RedisList.lrange s.clock (s.windows chat)))

-- `not (text or "").strip()`
abbrev pub stripped : Option Text → Text
stripped none = []
stripped (some t) = strip t

abbrev pub is_falsy : Option Text → Bool
is_falsy none = true
is_falsy (some t) = is_empty t

abbrev pub or_else : Option ℕ → ℕ → ℕ
or_else none d = d
or_else (some t) d = t

-- A message with no text and no media is dropped unseen.
abbrev pub is_void : TelegramMessageEvent → Bool
is_void event = is_empty (stripped event.content) && is_falsy event.media_type

abbrev pub payload_of : TelegramMessageEvent → WindowMessagePayload
payload_of event = record {
  tg_message_id = event.tg_message_id;
  tg_sender_id = event.tg_sender_id;
  tg_sender_name = event.tg_sender_name;
  tg_sender_username = event.tg_sender_username;
  content = stripped event.content;
  reply_to_message_id = event.reply_to_message_id;
  media_type = event.media_type;
  is_forwarded = event.is_forwarded;
  occurred_at = or_else event.tg_date event.occurred_at;
}

unfoldable pub build_window_id : (ℕ → Text) → Exec State Text
build_window_id uuid = do
  n ← gets (λ s. s.uuids_drawn)
  modify (λ s. record s { uuids_drawn = suc s.uuids_drawn })
  pure (uuid n)

-- The keyword arguments of `_run_analysis` are the state that the graph is started with.
unfoldable pub run_analysis : Externals → AnalysisInput → Exec State Unit
run_analysis x input = do
  analysis ← lift (run_graph x input)
  publish (
      preprocessed (record {
        source_event_id = input.source_event_id;
        tg_chat_id = input.tg_chat_id;
        source_window_id = input.source_window_id;
        messages = input.messages;
        features = analysis.features;
        trace_id = input.trace_id;
      }))
  publish (
      completed (record {
        source_event_id = input.source_event_id;
        tg_chat_id = input.tg_chat_id;
        source_window_id = input.source_window_id;
        result = analysis.result;
        trace_id = input.trace_id;
      }))
  for_each
      (λ (signal : AnalyticsSignal). publish (
        signalled (record {
          source_window_id = input.source_window_id;
          tg_chat_id = input.tg_chat_id;
          signal = signal;
          trace_id = input.trace_id;
        })))
      analysis.result.analytics_signals
  publish (projection analysis.projection_command)

module _ (x : Externals) (uuid : ℕ → Text) where
  unfoldable pub flush_window : ℤ → Text → ChatType → Option Text → Exec State Unit
  flush_window chat source_event_id chat_type trace_id = do
    messages ← load_window_messages chat
    if is_empty messages then pure tt else do
      id ← build_window_id uuid
      run_analysis x (record {
        source_event_id = source_event_id;
        source_window_id = id;
        tg_chat_id = chat;
        chat_type = chat_type;
        messages = messages;
        trace_id = trace_id;
      })
      delete_window chat

module _ (settings : Settings) (x : Externals) (uuid : ℕ → Text) where
  -- The flush of a window whose last message is too old.
  abbrev pub roll_over :
      TelegramMessageEvent → WindowMessagePayload → Option WindowMessagePayload → Exec State Unit
  roll_over event payload none = pure tt
  roll_over event payload (some last) =
      when
        (needs_rollover last.occurred_at payload.occurred_at settings.window_strategy
          settings.analysis_time_window_minutes)
        (flush_window x uuid event.tg_chat_id event.event_id event.chat_type event.trace_id)

  -- What follows once the event is marked.
  unfoldable pub accept_message : TelegramMessageEvent → Exec State Unit
  accept_message event = do
    existing ← load_window_messages event.tg_chat_id
    roll_over event (payload_of event) (get_last? existing)
    size ← store_window_message settings event.tg_chat_id (payload_of event)
    when (leb settings.analysis_window_size size)
        (flush_window x uuid event.tg_chat_id event.event_id event.chat_type event.trace_id)

  unfoldable pub handle_message : TelegramMessageEvent → Exec State Unit
  handle_message event = if is_void event then pure tt else do
    seen ← is_processed event.event_id
    if seen then pure tt else do mark_processed event.event_id; accept_message event

module _ (json : JsonTools) (x : Externals) where
  abbrev pub reanalyse : ReprocessWindowCommand → Option StoredWindow → Exec State Unit
  reanalyse command none = mark_processed command.command_id
  reanalyse command (some row) = do
    mark_processed command.command_id
    messages ← lift (coerce_window_messages json row.messages)
    run_analysis x (record {
      source_event_id = command.command_id;
      source_window_id = command.window_id;
      tg_chat_id = row.tg_chat_id;
      chat_type = row.chat_type;
      messages = messages;
      trace_id = command.trace_id;
    })

  unfoldable pub handle_reprocess : ReprocessWindowCommand → Exec State Unit
  handle_reprocess command = do
    seen ← is_processed command.command_id
    if seen
        then pure tt
        else do row ← gets (λ s. s.analysis_windows command.window_id); reanalyse command row

-- An entry of a stream, with the time of Redis at which its handler runs.
pub record Entry : Type 0 where
  pub stream : Text
  pub msg_id : Text
  pub raw : Text
  pub handled_at : ℕ

abbrev pub stream_telegram_message : Text
stream_telegram_message = text "events.telegram.message"

abbrev pub stream_ai_reprocess_window : Text
stream_ai_reprocess_window = text "events.ai.reprocess_window"

-- `model_validate_json` of the two types of message, and what decodes a stored window
pub record Decoders : Type 0 where
  pub message : Text → Result TelegramMessageEvent
  pub reprocess : Text → Result ReprocessWindowCommand
  pub json : JsonTools

module _ (settings : Settings) (x : Externals) (uuid : ℕ → Text) (decode : Decoders) where
  unfoldable pub process_entry : Entry → Exec State Unit
  process_entry entry =
      if entry.stream == stream_telegram_message
      then (do event ← lift (decode.message entry.raw); handle_message settings x uuid event)
      else if entry.stream == stream_ai_reprocess_window
      then (do command ← lift (decode.reprocess entry.raw); handle_reprocess decode.json x command)
      else pure tt

  -- An exception is logged and dropped; `finally` acknowledges the entry.
  unfoldable pub deliver : Entry → State → State
  deliver entry s =
      let (result, after) = process_entry entry (record s { clock = entry.handled_at }) in
      record after { acked = after.acked ++ entry.msg_id ∷ [] }

  unfoldable pub run_entries : List Entry → State → State
  unfolding deliver
  run_entries [] s = s
  run_entries (entry ∷ entries) s = run_entries entries (deliver entry s)

  -- One round of the loop for each read; a read that raises is logged and the loop goes on.
  unfoldable pub run : List (Result (List Entry)) → State → State
  unfolding run_entries
  run [] s = s
  run (Result.err e ∷ reads) s = run reads s
  run (Result.ok entries ∷ reads) s = run reads (run_entries entries s)
