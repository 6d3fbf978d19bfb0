-- ===== src/Orchestrator/Backfill/Tests.antt =====
-- Small backfills, and the theorems there.
use personal_intelligence.Base.{
  ℕ, ◌≡◌, refl, true, false, none, some, [], ◌∷◌, List, text, pos, same_text, same_int, has_part,
  starts_with, strip, rstrip_by, lstrip_by,
}
use personal_intelligence.Exec.{ok, err, analysis_failed, Holds}
use personal_intelligence.Contracts.{private, TelegramMessageEvent}
use personal_intelligence.Orchestrator.Settings.{defaults}
use personal_intelligence.Orchestrator.Graph.{Externals}
use personal_intelligence.Orchestrator.State.{init}
use personal_intelligence.Orchestrator.Features.{Patterns, compute_message_features, chat_type_name}
use personal_intelligence.Orchestrator.Replay.{
  IsIdle, IsBalanced, run_backfill-IsIdle, run_backfill-IsBalanced,
}
use personal_intelligence.Orchestrator.Backfill.{
  Args, Replayed, is_obvious_test_event, run_backfill,
}

abbrev sync_message : TelegramMessageEvent
sync_message = record {
  event_id = text "e1";
  occurred_at = 5;
  trace_id = none;
  tg_chat_id = pos 7;
  tg_message_id = pos 1;
  tg_sender_id = some (pos 100);
  tg_sender_username = none;
  tg_sender_name = some (text "Anna");
  chat_title = none;
  chat_type = private;
  content = some (text "Message 3: normal project sync");
  media_type = none;
  reply_to_message_id = none;
  is_forwarded = false;
  tg_date = none;
}

is_test_data : is_obvious_test_event sync_message ≡ true
unfolding is_obvious_test_event same_int same_text has_part starts_with strip rstrip_by lstrip_by
is_test_data = refl

abbrev patterns : Patterns
patterns = record {
  handles = λ t. [];
  links = λ t. [];
  emails = λ t. [];
  phones = λ t. [];
  words = λ t. [];
  compact_phone = λ t. t;
  casefold = λ t. t;
  is_digit = λ t. false;
  round3 = λ n d. n;
}

-- A graph whose analysis raises
abbrev failing : Externals
failing = record {
  Context = ℕ;
  context_loader = λ chat messages. ok 0;
  analyze = λ id messages features context. err (analysis_failed (text "down"));
  compute_features = λ messages kind.
      compute_message_features patterns messages (chat_type_name kind) (text "rolling");
}

abbrev dry : Args
dry = record {
  exclude_chat_id = pos 9 ∷ [];
  max_events = 10;
  skip_obvious_test_data = false;
  dry_run = true;
}

abbrev wet : Args
wet = record {
  exclude_chat_id = pos 9 ∷ [];
  max_events = 0;
  skip_obvious_test_data = true;
  dry_run = false;
}

abbrev entries : List Replayed
entries = record { payload = ok sync_message; handled_at = 6 } ∷ []

run_backfill-IsIdle_example :
    Holds
      (λ r. IsIdle defaults failing (λ n. []) dry init r.0 r.1)
      (run_backfill defaults failing (λ n. []) dry entries init)
run_backfill-IsIdle_example = run_backfill-IsIdle defaults failing (λ n. []) dry entries init refl

counts_add_up :
    Holds
      (λ r. IsBalanced defaults failing (λ n. []) wet r.0)
      (run_backfill defaults failing (λ n. []) wet entries init)
counts_add_up = run_backfill-IsBalanced defaults failing (λ n. []) wet entries init refl
