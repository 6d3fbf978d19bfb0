-- ===== src/TaskExtractor/Tests.antt =====
-- A run of the task-extractor, and its theorems at concrete inputs.
use personal_intelligence.Base.{
  ◌≡◌, ◌≤◌, refl, false, Option, none, some, List, [], ◌∷◌, Text, text, length, ℤ, pos, has_part,
  same_text, same_int, strip, squeeze, show_int,
}
use personal_intelligence.Exec.{Result, invalid_payload, ok, err}
use personal_intelligence.Contracts.{private, TelegramMessageEvent}
use personal_intelligence.Store.Ledger
use personal_intelligence.TaskExtractor.Rules.{extract_task_candidate, detect_resolution}
use personal_intelligence.TaskExtractor.Rules.Titles.{normalize_text, make_title, length-make_title}
use personal_intelligence.TaskExtractor.Rules.Due.{Matchers, extract_due_at}
use personal_intelligence.TaskExtractor.State.{Status, opened, done, Task, State, init}
use personal_intelligence.TaskExtractor.Consumer.{
  mark_processed, publish, assign_people, create_task, build_task_created_event,
  resolve_replied_task, handle_message, process_stream, run, Entry, Decoders,
}
use personal_intelligence.TaskExtractor.Consumer.Queries.{
  update_where, find_task_by_source_message, ensure_chat, ensure_person, get_owner_person_id,
}
use personal_intelligence.TaskExtractor.Lifecycle.{Evolves, run-Evolves}
use personal_intelligence.TaskExtractor.Redelivery.{handle_message_again}
use personal_intelligence.TaskExtractor.Sources.{HasValidTasks, run-HasValidTasks}

abbrev matchers : Matchers
matchers = record {
  promise_re = has_part (text "i will");
  request_re = has_part (text "please");
  resolution_re = has_part (text "done");
  lower = λ t. t;
  search_dates = none;
}

abbrev message : Text → ℤ → Option ℤ → Text → TelegramMessageEvent
message id number reply content = record {
  event_id = id;
  occurred_at = 1000;
  trace_id = none;
  tg_chat_id = pos 7;
  tg_message_id = number;
  tg_sender_id = some (pos 100);
  tg_sender_username = none;
  tg_sender_name = some (text "Anna");
  chat_title = none;
  chat_type = private;
  content = some content;
  media_type = none;
  reply_to_message_id = reply;
  is_forwarded = false;
  tg_date = none;
}

abbrev promise_message : TelegramMessageEvent
promise_message = message (text "e1") (pos 1) none (text "i will send it tomorrow")

abbrev answer : TelegramMessageEvent
answer = message (text "e2") (pos 2) (some (pos 1)) (text "done")

abbrev decoders : Decoders
decoders = record {
  message = λ raw. elim raw [ [] ↦ ok promise_message | ◌∷◌ c s ↦ ok answer ];
  edited = λ raw. err (invalid_payload raw);
  deleted = λ raw. err (invalid_payload raw);
}

abbrev entry : Text → Entry
entry raw = record {
  stream = text "events.telegram.message";
  msg_id = text "1-0";
  raw = raw;
  handled_at = 5;
}

abbrev first : State
first = handle_message matchers 500 promise_message init

abbrev statuses : List Task → List Status
statuses [] = []
statuses (t ∷ ts) = t.status ∷ statuses ts

program : Unit {0}
unfolding handle_message resolve_replied_task detect_resolution normalize_text
    extract_task_candidate extract_due_at make_title mark_processed publish assign_people
    create_task build_task_created_event update_where find_task_by_source_message ensure_chat
    ensure_person get_owner_person_id process_stream run strip squeeze has_part same_text same_int
    show_int Ledger.is_processed Ledger.mark_processed
program = tt

first_opens : statuses first.tasks ≡ opened ∷ []
unfolding program
first_opens = refl

answer_closes : statuses (handle_message matchers 500 answer first).tasks ≡ done ∷ []
unfolding program
answer_closes = refl

run-Evolves_example :
    Evolves first.tasks
      (run matchers 500 decoders (ok (entry [] ∷ entry (text "x") ∷ []) ∷ []) first).tasks
run-Evolves_example =
    run-Evolves matchers 500 decoders (ok (entry [] ∷ entry (text "x") ∷ []) ∷ []) first

length-make_title_example : length (make_title (text ".. send the report!")) ≤ 80
length-make_title_example = length-make_title (text ".. send the report!")

run-HasValidTasks_example :
    HasValidTasks (run matchers 500 decoders (ok (entry [] ∷ entry (text "x") ∷ []) ∷ []) init)
run-HasValidTasks_example =
    run-HasValidTasks matchers 500 decoders (ok (entry [] ∷ entry (text "x") ∷ []) ∷ []) init tt

abbrev reads : List (Result (List Entry))
reads = ok (entry (text "x") ∷ []) ∷ []

handle_message_again_example :
    handle_message matchers 500 promise_message (run matchers 500 decoders reads first)
    ≡ run matchers 500 decoders reads first
handle_message_again_example = handle_message_again matchers 500 decoders promise_message reads init
