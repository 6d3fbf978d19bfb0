-- ===== src/TaskExtractor/Consumer.antt =====
-- The handlers and the loop of consumer.py. Each handler is a function of the state: its statements
-- are those of SQL and of the streams, and the calls themselves are taken not to fail.
pub mod Queries
use personal_intelligence.Base.{
  ℕ, Bool, true, false, Option, none, some, List, [], ◌∷◌, ◌++◌, map, Text, text, text_eq, ℤ,
  int_eq, ◌==◌, is_empty, strip, take, ltb, truthy_id, keep_if, nat_eq, ◌+◌, ◌&&◌, if◌then◌else◌,
}
use personal_intelligence.Exec.{Result, ok, err}
use personal_intelligence.Contracts.{
  MessageRef, TelegramMessageEvent, TelegramMessageEditedEvent, TelegramMessageDeletedEvent,
  Resolution,
}
use personal_intelligence.Store.Ledger
use personal_intelligence.TaskExtractor.Rules.{
  TaskKind, promise, request, TaskCandidate, extract_task_candidate, detect_resolution,
}
use personal_intelligence.TaskExtractor.Rules.Due.{Matchers}
use personal_intelligence.TaskExtractor.State.{
  Status, opened, done, dropped, Task, Person, Published, task_created, task_resolved, DeadLetter,
  State, consumer_name,
}
use Queries.{
  update_where, is_closable, finish, drop_task, find_task_by_source_message, ensure_chat,
  ensure_person, get_owner_person_id, is_open,
}

abbrev pub is_processed : Text → State → Bool
is_processed event_id s = Ledger.is_processed consumer_name event_id s.processed

unfoldable pub mark_processed : Text → State → State
mark_processed event_id s = record s {
  processed = Ledger.mark_processed consumer_name event_id s.processed;
}

unfoldable pub publish : Published → State → State
publish p s = record s { published = s.published ++ p ∷ [] }

-- `(text or "").strip()`
abbrev pub stripped : Option Text → Text
stripped none = []
stripped (some t) = strip t

abbrev pub same_person : Option ℕ → Option ℕ → Bool
same_person none none = true
same_person (some a) (some b) = a == b
same_person none (some b) = false
same_person (some a) none = false

-- The owner and the counterpart of a new task, by the sender and the owner of the account.
unfoldable pub assign_people : TaskKind → Option ℕ → Option ℕ → Option ℕ × Option ℕ
assign_people request sender none = (sender, none)
assign_people request sender (some owner) =
    (some owner, if same_person (some owner) sender then none else sender)
assign_people promise (some sender) (some owner) =
    (some sender, if same_person (some sender) (some owner) then none else some owner)
assign_people promise sender owner = (sender, none)

abbrev pub new_task : ℕ → ℕ → ℕ → TelegramMessageEvent → TaskCandidate → Option ℕ × Option ℕ → Task
new_task id now chat event candidate (owner, counterpart) = record {
  id = id;
  title = candidate.title;
  description = some candidate.description;
  owner_person_id = owner;
  counterpart_person_id = counterpart;
  chat_id = some chat;
  source = record { tg_chat_id = event.tg_chat_id; tg_message_id = event.tg_message_id };
  due_at = candidate.due_at;
  status = opened;
  priority = candidate.priority;
  confidence = candidate.confidence;
  evidence = some candidate.evidence;
  resolved_at = none;
  updated_at = now;
}

-- The chat and the sender are stored first; the result is the new row.
unfoldable pub create_task : TelegramMessageEvent → TaskCandidate → State → Task × State
create_task event candidate s =
    let (chat, s1) = ensure_chat event s in
    let (sender, s2) =
      ensure_person event.tg_sender_id event.tg_sender_username event.tg_sender_name s1 in
    let people = assign_people candidate.kind sender (get_owner_person_id s2.persons) in
    let task = new_task s2.next_id s2.clock chat event candidate people in
    (task, record s2 { next_id = s2.next_id + 1; tasks = s2.tasks ++ task ∷ [] })

-- The event is built from the row that was just written.
unfoldable pub build_task_created_event : Task → TelegramMessageEvent → TaskCandidate → Published
build_task_created_event task event candidate = task_created (record {
  task_id = task.id;
  title = candidate.title;
  owner_person_id = task.owner_person_id;
  counterpart_person_id = task.counterpart_person_id;
  due_at = candidate.due_at;
  source_message_ref = record {
    tg_chat_id = event.tg_chat_id;
    tg_message_id = event.tg_message_id;
  };
  confidence = candidate.confidence;
  evidence = some candidate.evidence;
  trace_id = event.trace_id;
})

abbrev resolved_event : Task → Text → Option Text → Published
resolved_event task evidence trace_id = task_resolved (record {
  task_id = task.id;
  resolution = Resolution.done;
  evidence = some (take 400 evidence);
  trace_id = trace_id;
})

-- UPDATE ... RETURNING id, read by `fetchrow`: every matching row is closed, one is returned.
abbrev pub close_replied : TelegramMessageEvent → Text → List Task → State → Option ℕ × State
close_replied event evidence [] s = (none, s)
close_replied event evidence (task ∷ more) s =
    (some task.id, publish (resolved_event task evidence event.trace_id) s)

abbrev pub resolve_reply : TelegramMessageEvent → Text → Option ℤ → State → Option ℕ × State
resolve_reply event evidence none s = (none, s)
resolve_reply event evidence (some reply) s =
    let matches = is_closable event.tg_chat_id (reply ∷ []) in
    close_replied event evidence (keep_if matches s.tasks)
      (record s { tasks = update_where matches (finish event.occurred_at s.clock) s.tasks })

unfoldable pub resolve_replied_task : TelegramMessageEvent → Text → State → Option ℕ × State
resolve_replied_task event evidence s =
    resolve_reply event evidence (truthy_id event.reply_to_message_id) s

module _ (m : Matchers) (task_min_confidence : ℕ) where
  abbrev pub take_candidate : TelegramMessageEvent → TaskCandidate → State → State
  take_candidate event candidate s =
      elim (find_task_by_source_message event.tg_chat_id event.tg_message_id s.tasks) [
        | some existing ↦ mark_processed event.event_id s
        | none ↦
            let (task, s') = create_task event candidate s in
            mark_processed event.event_id
              (publish (build_task_created_event task event candidate) s')
      ]

  abbrev pub look_for_task : TelegramMessageEvent → Option TaskCandidate → State → State
  look_for_task event none s = mark_processed event.event_id s
  look_for_task event (some candidate) s =
      if ltb candidate.confidence task_min_confidence
      then mark_processed event.event_id s
      else take_candidate event candidate s

  abbrev pub after_reply : TelegramMessageEvent → Text → Option ℕ → State → State
  after_reply event content (some task) s = mark_processed event.event_id s
  after_reply event content none s =
      look_for_task event (extract_task_candidate m content event.occurred_at) s

  unfoldable pub handle_message : TelegramMessageEvent → State → State
  handle_message event s =
      let content = stripped event.content in
      if is_empty content
      then s
      else if is_processed event.event_id s
      then s
      else if detect_resolution m content
      then (let (resolved, s') = resolve_replied_task event content s in
          after_reply event content resolved s')
      else after_reply event content none s

  abbrev pub edit_task : ℕ → TaskCandidate → Task → Task
  edit_task now candidate t = record t {
    title = candidate.title;
    description = some candidate.description;
    due_at = candidate.due_at;
    priority = candidate.priority;
    confidence = candidate.confidence;
    evidence = some candidate.evidence;
    updated_at = now;
  }

  abbrev pub edit_existing :
      TelegramMessageEditedEvent → Option TaskCandidate → Option Task → State → State
  edit_existing event candidate none s = s
  edit_existing event none (some existing) s = s
  edit_existing event (some candidate) (some existing) s = record s {
    tasks =
        update_where (λ t. t.id == existing.id && is_open t) (edit_task s.clock candidate) s.tasks;
  }

  unfoldable pub handle_message_edited : TelegramMessageEditedEvent → State → State
  handle_message_edited event s =
      let content = stripped event.new_text in
      if is_empty content
      then s
      else if is_processed event.event_id s
      then s
      else mark_processed event.event_id (
          edit_existing event (extract_task_candidate m content event.occurred_at)
            (find_task_by_source_message event.tg_chat_id event.tg_message_id s.tasks) s)

abbrev dropped_event : TelegramMessageDeletedEvent → Task → Published
dropped_event event task = task_resolved (record {
  task_id = task.id;
  resolution = Resolution.dropped;
  evidence = some (text "source message deleted");
  trace_id = event.trace_id;
})

unfoldable pub handle_message_deleted : TelegramMessageDeletedEvent → State → State
handle_message_deleted event s =
    if is_empty event.tg_message_ids
    then s
    else if is_processed event.event_id s
    then s
    else let matches = is_closable event.tg_chat_id event.tg_message_ids in
      mark_processed event.event_id (record s {
        tasks = update_where matches (drop_task s.clock) s.tasks;
        published = s.published ++ map (dropped_event event) (keep_if matches s.tasks);
      })

-- An entry of one of the three streams, with the time of its handling.
pub record Entry : Type 0 where
  pub stream : Text
  pub msg_id : Text
  pub raw : Text
  pub handled_at : ℕ

pub record Decoders : Type 0 where
  pub message : Text → Result TelegramMessageEvent
  pub edited : Text → Result TelegramMessageEditedEvent
  pub deleted : Text → Result TelegramMessageDeletedEvent

abbrev pub and_handle {ℓ} :
    {A : Type ℓ} → Result A → (A → State → State) → State → Result (Unit {0}) × State
and_handle (ok event) f s = (ok tt, f event s)
and_handle (err e) f s = (err e, s)

module _ (m : Matchers) (task_min_confidence : ℕ) (decode : Decoders) where
  unfoldable pub process_stream : Entry → State → Result (Unit {0}) × State
  process_stream entry s =
      if entry.stream == text "events.telegram.message"
      then and_handle (decode.message entry.raw) (handle_message m task_min_confidence) s
      else if entry.stream == text "events.telegram.message_edited"
      then and_handle (decode.edited entry.raw) (handle_message_edited m task_min_confidence) s
      else if entry.stream == text "events.telegram.message_deleted"
      then and_handle (decode.deleted entry.raw) handle_message_deleted s
      else (ok tt, s)

  -- A failed entry goes to the dead letters; every entry is acknowledged.
  abbrev pub settle : Entry → Result (Unit {0}) → State → State
  settle entry (ok u) s = record s { acked = s.acked ++ entry.msg_id ∷ [] }
  settle entry (err e) s = record s {
    dead_letters = s.dead_letters ++ record { stream = entry.stream; msg_id = entry.msg_id } ∷ [];
    acked = s.acked ++ entry.msg_id ∷ [];
  }

  unfoldable pub deliver : Entry → State → State
  deliver entry s =
      let (result, after) = process_stream entry (record s { clock = entry.handled_at }) in
      settle entry result after

  unfoldable pub run_entries : List Entry → State → State
  unfolding deliver
  run_entries [] s = s
  run_entries (entry ∷ entries) s = run_entries entries (deliver entry s)

  unfoldable pub run : List (Result (List Entry)) → State → State
  unfolding run_entries
  run [] s = s
  run (err e ∷ reads) s = run reads s
  run (ok entries ∷ reads) s = run reads (run_entries entries s)
