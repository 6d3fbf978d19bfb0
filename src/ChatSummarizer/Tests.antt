-- ===== src/ChatSummarizer/Tests.antt =====
-- An edit of an open window, a summary, and the theorems at concrete inputs.
use personal_intelligence.Base.{
  true, ◌≡◌, ◌≤◌, refl, arith, false, none, some, List, [], ◌∷◌, Text, text, length, ℤ, pos, strip,
  same_text, same_int,
}
use personal_intelligence.Contracts.{private, TelegramMessageEvent, TelegramMessageEditedEvent}
use personal_intelligence.Store.Ledger
use personal_intelligence.Store.RedisList
use personal_intelligence.ChatSummarizer.Windows.{
  is_processed, WindowMessage, State, mark_processed, edit_entries, rewrite_window,
  handle_edited_message,
}
use personal_intelligence.Exec.{
  Result, ok, err, summary_failed, storage_failed, Returns, gets, lift, modify, raise, pure, ◌>>=◌,
}
use personal_intelligence.Orchestrator.Rollover.{needs_rollover}
use personal_intelligence.ChatSummarizer.Engine.{
  Engine, summarize, heuristic_summary, summary_from_payload, summarize-Returns,
}
use personal_intelligence.ChatSummarizer.Consumer.{
  Settings, Services, Entry, Incoming, load_window, delete_window, on_db, transaction,
  write_interaction, flush_window, should_roll_window, handle_message, run,
}
use personal_intelligence.ChatSummarizer.Flush.{
  Untouched, flush_window_fails, FailingRollover, rollover_failure_loses_text,
}
use personal_intelligence.ChatSummarizer.Unique.{HasUnique, run-IsUnique}
use personal_intelligence.ChatSummarizer.Edits.{
  open_window, edited_in, rest_of, handle_edited_message_lem,
}
use personal_intelligence.ChatSummarizer.Heuristics.{
  Words, summarize_window, length-summarize_window,
}

abbrev message : ℤ → Text → WindowMessage
message number content = record {
  tg_message_id = number;
  tg_sender_id = some (pos 100);
  tg_sender_name = some (text "Anna");
  chat_type = private;
  chat_title = none;
  content = content;
  occurred_at = 5;
}

abbrev known : State
known = record {
  clock = 10;
  processed = [];
  windows = λ chat. record {
    items = message (pos 1) (text "one") ∷ message (pos 2) (text "two") ∷ [];
    expires_at = none;
  };
  db = record { next_id = 1; chats = []; persons = []; tasks = []; interactions = [] };
  objects = [];
  published = [];
  dead_letters = [];
  acked = [];
}

abbrev edit : TelegramMessageEditedEvent
edit = record {
  event_id = text "e9";
  occurred_at = 9;
  trace_id = none;
  tg_chat_id = pos 7;
  tg_message_id = pos 2;
  new_text = some (text " 2 ");
}

edit_replaces :
    open_window (handle_edited_message 60 edit known) (pos 7)
    ≡ message (pos 1) (text "one") ∷ message (pos 2) (text "2") ∷ []
unfolding handle_edited_message mark_processed edit_entries rewrite_window strip same_text same_int
    Ledger.is_processed Ledger.mark_processed RedisList.lrange RedisList.expire
edit_replaces = refl

handle_edited_message_lem_example :
    let after = handle_edited_message 60 edit known in
    (open_window after (pos 7) ≡ edited_in edit (pos 7) (open_window known (pos 7)))
    × ((is_processed edit.event_id after ≡ true) × (rest_of after ≡ rest_of known))
unfolding strip Ledger.is_processed
handle_edited_message_lem_example = handle_edited_message_lem 60 edit known (pos 7) refl refl

abbrev words : Words
words = record { lower = λ t. t; extract_topics = λ texts. texts }

length-summarize_window_example :
    length (summarize_window words (text "great work" ∷ text "see you" ∷ []) 60).summary ≤ 60
length-summarize_window_example =
    length-summarize_window words (text "great work" ∷ text "see you" ∷ []) 60 (omega arith)

abbrev engine : Engine
engine = record {
  mode = text "hybrid";
  complete_summary = some (λ messages. err (summary_failed (text "timeout")));
  words = words;
  summarizer_max_summary_chars = 350;
}

summary_falls_back : Returns (summarize engine (message (pos 1) (text "one") ∷ []))
unfolding same_text
summary_falls_back = summarize-Returns engine (message (pos 1) (text "one") ∷ []) refl

abbrev settings : Settings
settings = record {
  summarizer_strategy = text "by_time_window";
  summarizer_window_size = 2;
  summarizer_time_window_minutes = 60;
}

-- The object store is not to be reached.
abbrev failing : Services
failing = record {
  engine = engine;
  put_bucket_object = some (λ key. err (storage_failed (text "s3")));
}

abbrev working : Services
working = record { engine = engine; put_bucket_object = none }

flush_publishes : load_window (pos 7) (flush_window working (pos 7) none known).1 ≡ []
unfolding flush_window write_interaction transaction on_db load_window delete_window summarize
    heuristic_summary summary_from_payload gets lift modify pure ◌>>=◌ same_text same_int
    RedisList.lrange RedisList.is_expired
flush_publishes = refl

flush_window_fails_example : Untouched known (flush_window failing (pos 7) none known).1
unfolding flush_window write_interaction transaction on_db load_window summarize gets lift modify
    raise pure ◌>>=◌ same_text RedisList.lrange RedisList.is_expired
flush_window_fails_example =
    flush_window_fails failing (pos 7) none known (storage_failed (text "s3")) refl

abbrev late : TelegramMessageEvent
late = record {
  event_id = text "e3";
  occurred_at = 9000000000;
  trace_id = none;
  tg_chat_id = pos 7;
  tg_message_id = pos 3;
  tg_sender_id = some (pos 100);
  tg_sender_username = none;
  tg_sender_name = none;
  chat_title = none;
  chat_type = private;
  content = some (text "three");
  media_type = none;
  reply_to_message_id = none;
  is_forwarded = false;
  tg_date = none;
}

late_rollover_fails : FailingRollover settings failing late known (storage_failed (text "s3"))
unfolding flush_window write_interaction transaction on_db load_window summarize gets lift modify
    raise pure ◌>>=◌ same_text strip RedisList.lrange RedisList.is_expired Ledger.is_processed
    mark_processed should_roll_window needs_rollover
late_rollover_fails = record { has_text = refl; fresh = refl; too_old = refl; raises = refl }

rollover_failure_loses_text_example :
    let after = (handle_message settings failing late known).1 in
    ((handle_message settings failing late known).0 ≡ err (storage_failed (text "s3")))
    × ((after.windows ≡ known.windows)
        × (handle_message settings failing late after ≡ (ok tt, after)))
rollover_failure_loses_text_example =
    rollover_failure_loses_text settings failing late known (storage_failed (text "s3"))
      late_rollover_fails

abbrev reads : List (Result (List Entry))
reads =
    ok (record { msg_id = text "1"; payload = ok (Incoming.message late); read_at = 20 } ∷ []) ∷ []

run-IsUnique_example : HasUnique (run settings working reads known)
run-IsUnique_example = run-IsUnique settings working reads known tt
