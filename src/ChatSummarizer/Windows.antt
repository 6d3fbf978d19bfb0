-- ===== src/ChatSummarizer/Windows.antt =====
-- `WindowMessage`, the keys of Redis and `_handle_edited_message` of consumer.py. A window is the list
-- of its messages, without their JSON.
use personal_intelligence.Base.{
  ℕ, ◌*◌, max, Bool, true, false, Option, none, some, List, [], ◌∷◌, Text, text, ℤ, int_eq, ◌==◌,
  is_empty, strip, if◌then◌else◌,
}
use personal_intelligence.Contracts.{ChatType, TelegramMessageEditedEvent, InteractionUpdatedEvent}
use personal_intelligence.Store.Ledger
use personal_intelligence.Store.Ledger.{Ledger}
use personal_intelligence.Store.RedisList
use personal_intelligence.Store.RedisList.{RedisList}
use personal_intelligence.ChatSummarizer.Tables.{Db}

pub record WindowMessage : Type 0 where
  pub tg_message_id : ℤ
  pub tg_sender_id : Option ℤ
  pub tg_sender_name : Option Text
  pub chat_type : ChatType
  pub chat_title : Option Text
  pub content : Text
  pub occurred_at : ℕ

-- `windows` is the lists `pil:summarizer:<chat>:window`, by the chat; `clock` is Redis' time. `objects`
-- is what stands in the object store, `published` and `dead_letters` what is in the two streams.
pub record State : Type 0 where
  pub clock : ℕ
  pub processed : Ledger
  pub windows : ℤ → RedisList WindowMessage
  pub db : Db
  pub objects : List (Text × List WindowMessage)
  pub published : List InteractionUpdatedEvent
  pub dead_letters : List Text
  pub acked : List Text

abbrev pub consumer_name : Text
consumer_name = text "chat-summarizer"

abbrev pub is_processed : Text → State → Bool
is_processed event_id s = Ledger.is_processed consumer_name event_id s.processed

unfoldable pub mark_processed : Text → State → State
mark_processed event_id s = record s {
  processed = Ledger.mark_processed consumer_name event_id s.processed;
}

abbrev pub stripped : Option Text → Text
stripped none = []
stripped (some t) = strip t

abbrev pub window_ttl : ℕ → ℕ
window_ttl summarizer_time_window_minutes = max (summarizer_time_window_minutes * 60) 3600

-- The loop over the entries: the entries with the new text, and whether one has changed.
unfoldable pub edit_entries : ℤ → Text → List WindowMessage → List WindowMessage × Bool
edit_entries message content [] = ([], false)
edit_entries message content (item ∷ entries) =
    let (updated, changed) = edit_entries message content entries in
    if item.tg_message_id == message
    then (record item { content = content } ∷ updated, true)
    else (item ∷ updated, changed)

abbrev pub replace_at :
    (ℤ → RedisList WindowMessage) → ℤ → RedisList WindowMessage → ℤ → RedisList WindowMessage
replace_at windows chat window other = if chat == other then window else windows other

-- DEL, RPUSH of all entries and EXPIRE. A list that is pushed to a missing key has no time to live.
unfoldable pub rewrite_window : ℕ → ℤ → List WindowMessage → State → State
rewrite_window time_window_minutes chat updated s = record s {
  windows = replace_at s.windows chat (
      RedisList.expire s.clock (window_ttl time_window_minutes)
        (record { items = updated; expires_at = none }));
}

abbrev pub edit_window : ℕ → TelegramMessageEditedEvent → Text → List WindowMessage → State → State
edit_window time_window_minutes event content [] s = s
edit_window time_window_minutes event content (entry ∷ entries) s =
    let (updated, changed) = edit_entries event.tg_message_id content (entry ∷ entries) in
    if changed then rewrite_window time_window_minutes event.tg_chat_id updated s else s

unfoldable pub handle_edited_message : ℕ → TelegramMessageEditedEvent → State → State
handle_edited_message time_window_minutes event s =
    let content = stripped event.new_text in
    if is_empty content
    then s
    else if is_processed event.event_id s
    then s
    else edit_window time_window_minutes event content
        (RedisList.lrange s.clock (s.windows event.tg_chat_id)) (mark_processed event.event_id s)
