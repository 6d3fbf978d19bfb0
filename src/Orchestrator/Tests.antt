-- ===== src/Orchestrator/Tests.antt =====
-- Small runs of the orchestrator, and its theorems at concrete inputs.
use personal_intelligence.Base.{
  ℕ, ◌+◌, ◌≡◌, ◌≢◌, ◌<◌, refl, true, false, none, some, List, [], ◌∷◌, ◌++◌, map, Text, text, ℤ,
  pos, length, elem, int_eq, All, strip, same_int, same_text, arith,
}
use personal_intelligence.Exec.{analysis_failed, invalid_payload, ok, err, ◌>>=◌, for_each}
use personal_intelligence.Contracts.{
  ChatType, private, TelegramMessageEvent, WindowMessagePayload, MessageFeatureSet, neutral,
  rolling, StructuredAnalysisResult, ReprocessWindowCommand,
}
use personal_intelligence.Store.Ledger
use personal_intelligence.Store.RedisList
use personal_intelligence.Orchestrator.Settings.{Settings, defaults}
use personal_intelligence.Orchestrator.Rollover.{needs_rollover}
use personal_intelligence.Orchestrator.Graph.{Externals, run_graph, validate_result}
use personal_intelligence.Orchestrator.Graph.Normalize.{normalize_messages}
use personal_intelligence.Orchestrator.Graph.Order.{
  ids, IsOrdered, IsDistinct, normalize_messages_lem,
}
use personal_intelligence.Orchestrator.Coerce.{JsonTools, string, list, coerce_window_messages}
use personal_intelligence.Orchestrator.State.{State, init, update}
use personal_intelligence.Orchestrator.Consumer.{
  payload_of, accept_message, handle_message, is_processed, mark_processed, load_window_messages,
  store_window_message, flush_window, build_window_id, delete_window, publish, run_analysis,
  handle_reprocess, run, process_entry, Entry, Decoders,
}
use personal_intelligence.Orchestrator.Conservation.{message_log, handed_on}
use personal_intelligence.Orchestrator.Delivery.{
  has_handled, marked, log-handle_message, handle_message_twice,
}
use personal_intelligence.Orchestrator.Bounds.{open_messages, open_messages-lt-window_size}
use personal_intelligence.Orchestrator.Loss.{
  FailingRollover, rollover_failure_loses_message, LateRollover, late_rollover_loses_window,
}
use personal_intelligence.Orchestrator.Reprocess.{reprocess_failure_loses_command}

abbrev hour : ℕ
hour = 3600000000

abbrev message : Text → ℤ → ℕ → TelegramMessageEvent
message id number sent = record {
  event_id = id;
  occurred_at = sent;
  trace_id = none;
  tg_chat_id = pos 7;
  tg_message_id = number;
  tg_sender_id = some (pos 100);
  tg_sender_username = none;
  tg_sender_name = some (text "Anna");
  chat_title = none;
  chat_type = private;
  content = some (text " hi ");
  media_type = none;
  reply_to_message_id = none;
  is_forwarded = false;
  tg_date = none;
}

abbrev features : List WindowMessagePayload → ChatType → MessageFeatureSet
features ms kind = record {
  chat_type = kind;
  message_count = length ms;
  participant_count = 1;
  participant_tg_ids = [];
  author_activity = [];
  mention_handles = [];
  links = [];
  emails = [];
  phones = [];
  keyword_candidates = [];
  sentiment_hint = neutral;
  attachment_count = 0;
  forwarded_count = 0;
  reply_count = 0;
  median_response_latency_sec = none;
  window_kind = rolling;
}

abbrev analysed : Text → StructuredAnalysisResult
analysed id = record {
  source_window_id = id;
  summary = text "ok";
  topics = [];
  participants = [];
  claims = [];
  tasks = [];
  analytics_signals = [];
  confidence = 500;
  caveats = [];
}

-- A language model that always answers, and one that never does.
abbrev answering : Externals
answering = record {
  Context = Unit;
  context_loader = λ chat ms. ok tt;
  analyze = λ id ms f c. ok (analysed id);
  compute_features = features;
}

abbrev silent : Externals
silent = record {
  Context = Unit;
  context_loader = λ chat ms. ok tt;
  analyze = λ id ms f c. err (analysis_failed (text "timeout"));
  compute_features = features;
}

abbrev uuid : ℕ → Text
uuid n = n ∷ []

abbrev pairs : Settings
pairs = record {
  window_strategy = text "hybrid";
  analysis_window_size = 2;
  analysis_time_window_minutes = 60;
}

program : Unit {0}
unfolding handle_message accept_message is_processed mark_processed load_window_messages
    store_window_message flush_window build_window_id delete_window publish run_analysis ◌>>=◌
    Ledger.is_processed Ledger.mark_processed RedisList.lrange RedisList.rpush RedisList.expire
    needs_rollover run_graph normalize_messages message_log handed_on handle_reprocess run
    process_entry strip same_int same_text for_each validate_result
program = tt

abbrev first_event : TelegramMessageEvent
first_event = message (text "e1") (pos 1) 0

abbrev second_event : TelegramMessageEvent
second_event = message (text "e2") (pos 2) 5

abbrev after : Settings → Externals → TelegramMessageEvent → State → State
after settings x event s = (handle_message settings x uuid event s).1

abbrev one_open : State
one_open = after pairs answering first_event init

two_messages_make_a_window :
    map
      (λ (m : WindowMessagePayload). m.tg_message_id)
      (handed_on (pos 7) (after pairs answering second_event one_open).published)
    ≡ pos 1 ∷ pos 2 ∷ []
unfolding program
two_messages_make_a_window = refl

log-handle_message_example :
    (message_log (pos 7) (after pairs answering second_event one_open)
      ≡ message_log (pos 7) one_open ++ payload_of second_event ∷ [])
    × ((c : ℤ)
        → pos 7 ≢ c
        → message_log c (after pairs answering second_event one_open) ≡ message_log c one_open)
unfolding program
log-handle_message_example =
    log-handle_message pairs answering uuid second_event one_open refl refl refl

handle_message_twice_example :
    handle_message pairs silent uuid first_event (after pairs silent first_event init)
    ≡ (ok tt, after pairs silent first_event init)
handle_message_twice_example = handle_message_twice pairs silent uuid first_event init

open_messages-lt-window_size_example :
    open_messages (pos 7) (after pairs answering second_event one_open) < 2
unfolding program
open_messages-lt-window_size_example =
    open_messages-lt-window_size pairs answering uuid second_event one_open refl refl refl

shuffled : List WindowMessagePayload
shuffled = payload_of second_event ∷ payload_of first_event ∷ payload_of second_event ∷ []

normalize_messages_lem_example :
    IsOrdered (normalize_messages shuffled)
    × IsDistinct (normalize_messages shuffled)
    × ((i : ℤ) → elem i (ids (normalize_messages shuffled)) ≡ elem i (ids shuffled))
    × ((P : WindowMessagePayload → Type 0) → All P shuffled → All P (normalize_messages shuffled))
normalize_messages_lem_example = normalize_messages_lem shuffled

-- The window of the first message, stored at a time.
abbrev left_at : ℕ → ℕ → State
left_at stored now = record init {
  clock = now;
  windows = update init.windows (pos 7) (
      RedisList.expire stored 3600
        (record { items = payload_of first_event ∷ []; expires_at = none }));
}

abbrev next_hour : TelegramMessageEvent
next_hour = message (text "e3") (pos 3) hour

failing_rollover :
    FailingRollover defaults silent uuid next_hour
      (left_at hour hour)
      (analysis_failed (text "timeout"))
unfolding program
failing_rollover = record {
  first = payload_of first_event;
  others = [];
  last = payload_of first_event;
  open_window = refl;
  last_message = refl;
  too_old = refl;
  raises = refl;
}

abbrev after_failure : State
after_failure = after defaults silent next_hour (left_at hour hour)

rollover_failure_loses_message_example :
    ((handle_message defaults silent uuid next_hour (left_at hour hour)).0
      ≡ err (analysis_failed (text "timeout")))
    × ((c : ℤ) → message_log c after_failure ≡ message_log c (left_at hour hour))
    × (has_handled (text "e3") after_failure ≡ true)
    × (handle_message defaults silent uuid next_hour after_failure ≡ (ok tt, after_failure))
unfolding program
rollover_failure_loses_message_example =
    rollover_failure_loses_message defaults silent uuid next_hour (left_at hour hour)
      (analysis_failed (text "timeout")) refl refl failing_rollover

late_rollover : LateRollover defaults next_hour (left_at 5 (hour + 5))
unfolding program
late_rollover = record {
  before = record { items = payload_of first_event ∷ []; expires_at = none };
  last = payload_of first_event;
  stored_at = 5;
  stored = refl;
  last_message = refl;
  an_hour = omega arith;
  stored_after = omega arith;
  no_faster = omega arith;
  too_old = refl;
}

late_rollover_loses_window_example :
    (message_log (pos 7) (left_at 5 5) ≡ payload_of first_event ∷ [])
    × (message_log (pos 7) (after defaults answering next_hour (left_at 5 (hour + 5)))
        ≡ payload_of next_hour ∷ [])
unfolding program late_rollover
late_rollover_loses_window_example =
    late_rollover_loses_window defaults next_hour (left_at 5 (hour + 5)) late_rollover answering
      uuid refl refl refl

-- Every payload is refused.
abbrev refusing : Decoders
refusing = record {
  message = λ raw. err (invalid_payload raw);
  reprocess = λ raw. err (invalid_payload raw);
  json = record { loads = λ t. none; model_validate = λ item. err (invalid_payload item) };
}

abbrev entry : Text → Entry
entry id = record {
  stream = text "events.telegram.message";
  msg_id = id;
  raw = text "{}";
  handled_at = 1;
}

abbrev command : ReprocessWindowCommand
command = record { command_id = text "c"; window_id = text "w"; trace_id = none }

-- A stored window, as the text of its JSON, with an item that is refused
abbrev tools : JsonTools
tools = record {
  loads = λ t. some (list (text "{}" ∷ []));
  model_validate = λ item. err (invalid_payload item);
}

abbrev with_window : State
with_window = record init {
  analysis_windows = λ id.
      some (record { tg_chat_id = pos 7; chat_type = private; messages = string (text "[{}]") });
}

reprocess_failure_loses_command_example :
    let after = (handle_reprocess tools silent command with_window).1 in
    (after ≡ marked (text "c") with_window)
    × (handle_reprocess tools silent command after ≡ (ok tt, after))
unfolding program coerce_window_messages
reprocess_failure_loses_command_example =
    reprocess_failure_loses_command tools silent command with_window (invalid_payload (text "{}"))
      refl
