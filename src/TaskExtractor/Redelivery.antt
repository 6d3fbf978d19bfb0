-- ===== src/TaskExtractor/Redelivery.antt =====
-- A second delivery of the events of consumer.py.
use personal_intelligence.Base.{
  ℕ, ◌≡◌, refl, true, false, Option, none, some, List, [], ◌∷◌, Text, ltb, is_empty, ℤ, inl, inr,
  Bool-cases, Option-cases,
}
use personal_intelligence.Exec.{Result}
use personal_intelligence.Contracts.{
  TelegramMessageEvent, TelegramMessageEditedEvent, TelegramMessageDeletedEvent,
}
use personal_intelligence.Store.Ledger
use personal_intelligence.TaskExtractor.Rules.{TaskCandidate, detect_resolution}
use personal_intelligence.TaskExtractor.Rules.Due.{Matchers}
use personal_intelligence.TaskExtractor.State.{Task, State, consumer_name}
use personal_intelligence.TaskExtractor.Consumer.{
  is_processed, mark_processed, stripped, take_candidate, look_for_task, after_reply,
  handle_message, close_replied, resolve_reply, publish, create_task, edit_existing,
  handle_message_deleted, Entry, Decoders, run,
}
use personal_intelligence.TaskExtractor.Consumer.Queries.{
  find_task_by_source_message, ensure_chat, ensure_person,
}
use personal_intelligence.TaskExtractor.Keeping.{Parts, run_keeps}

is_processed-mark_processed_again :
    (id : Text) (s : State) → is_processed id (mark_processed id s) ≡ true
unfolding mark_processed
is_processed-mark_processed_again id s =
    Ledger.is_processed-mark_processed consumer_name id s.processed

module _ (m : Matchers) (min_confidence : ℕ) (event : TelegramMessageEvent) where
  takes_and_marks :
      (c : TaskCandidate) (s : State)
      → is_processed event.event_id (take_candidate m min_confidence event c s) ≡ true
  takes_and_marks c s =
      elim (Option-cases
        (find_task_by_source_message event.tg_chat_id event.tg_message_id s.tasks)) [
          | inl missing ↦
              rw (missing, take_candidate) (is_processed-mark_processed_again event.event_id _)
          | inr (t, found) ↦
              rw (found, take_candidate) (is_processed-mark_processed_again event.event_id s)
        ]

  looks_and_marks :
      (c : Option TaskCandidate) (s : State)
      → is_processed event.event_id (look_for_task m min_confidence event c s) ≡ true
  looks_and_marks none s = is_processed-mark_processed_again event.event_id s
  looks_and_marks (some c) s = elim (Bool-cases (ltb c.confidence min_confidence)) [
    | inl low ↦ rw low (is_processed-mark_processed_again event.event_id s)
    | inr high ↦ rw high (takes_and_marks c s)
  ]

  goes_on_and_marks :
      (content : Text) (resolved : Option ℕ) (s : State)
      → is_processed event.event_id (after_reply m min_confidence event content resolved s) ≡ true
  goes_on_and_marks content none s = looks_and_marks _ s
  goes_on_and_marks content (some task) s = is_processed-mark_processed_again event.event_id s

  is_processed-handle_message :
      (s : State)
      → is_empty (stripped event.content) ≡ false
      → is_processed event.event_id (handle_message m min_confidence event s) ≡ true
  unfolding handle_message
  is_processed-handle_message s full = rw full (elim (Bool-cases (is_processed event.event_id s)) [
    | inl seen ↦ rw seen seen
    | inr fresh ↦ rw fresh (elim (Bool-cases (detect_resolution m (stripped event.content))) [
      | inl answer ↦ rw answer (goes_on_and_marks _ _ _)
      | inr plain ↦ rw plain (goes_on_and_marks _ none s)
    ])
  ])

  skips :
      (s : State)
      → is_processed event.event_id s ≡ true
      → handle_message m min_confidence event s ≡ s
  unfolding handle_message
  skips s seen = elim (Bool-cases (is_empty (stripped event.content))) [
    | inl void ↦ rw void refl
    | inr full ↦ rw (full, seen) refl
  ]

  ignores :
      (s : State)
      → is_empty (stripped event.content) ≡ true
      → handle_message m min_confidence event s ≡ s
  unfolding handle_message
  ignores s void = rw void refl

module _ (id : Text) where
  Seen : State → Type 0
  Seen s = is_processed id s ≡ true

  marks-Seen : (other : Text) (s : State) → Seen s → Seen (mark_processed other s)
  unfolding Seen mark_processed
  marks-Seen other s h =
      Ledger.is_processed-mark_other consumer_name id s.processed consumer_name other h

  replied-Seen :
      (event : TelegramMessageEvent) (content : Text) (hits : List Task) (s : State)
      → Seen s
      → Seen (close_replied event content hits s).1
  unfolding Seen publish
  replied-Seen event content [] s h = h
  replied-Seen event content (t ∷ ts) s h = h

  resolves-Seen :
      (event : TelegramMessageEvent) (content : Text) (reply : Option ℤ) (s : State)
      → Seen s
      → Seen (resolve_reply event content reply s).1
  unfolding Seen
  resolves-Seen event content none s h = h
  resolves-Seen event content (some reply) s h = replied-Seen event content _ _ h

  person-Seen :
      (user : Option ℤ) (username name : Option Text) (s : State)
      → Seen s
      → Seen (ensure_person user username name s).1
  unfolding Seen ensure_person
  person-Seen none username name s h = h
  person-Seen (some user) username name s h = h

  takes-Seen :
      (m : Matchers) (min_confidence : ℕ) (event : TelegramMessageEvent) (c : TaskCandidate)
      (s : State)
      → Seen s
      → Seen (take_candidate m min_confidence event c s)
  unfolding Seen publish create_task ensure_chat
  takes-Seen m min_confidence event c s h =
      elim (Option-cases
        (find_task_by_source_message event.tg_chat_id event.tg_message_id s.tasks)) [
          | inl missing ↦
              rw (missing, take_candidate)
                (marks-Seen event.event_id _ (
                  person-Seen event.tg_sender_id event.tg_sender_username event.tg_sender_name
                    (ensure_chat event s).1 h))
          | inr (t, found) ↦ rw (found, take_candidate) (marks-Seen event.event_id s h)
        ]

  edits-Seen :
      (m : Matchers) (min_confidence : ℕ) (event : TelegramMessageEditedEvent)
      (c : Option TaskCandidate) (t : Option Task) (s : State)
      → Seen s
      → Seen (edit_existing m min_confidence event c t s)
  unfolding Seen
  edits-Seen m min_confidence event c none s h = h
  edits-Seen m min_confidence event none (some t) s h = h
  edits-Seen m min_confidence event (some c) (some t) s h = h

  deletes-Seen :
      (event : TelegramMessageDeletedEvent) (s : State)
      → Seen s
      → Seen (handle_message_deleted event s)
  unfolding Seen handle_message_deleted
  deletes-Seen event s h = elim (Bool-cases (is_empty event.tg_message_ids)) [
    | inl void ↦ rw void h
    | inr full ↦ rw full (elim (Bool-cases (is_processed event.event_id s)) [
      | inl seen ↦ rw seen h
      | inr fresh ↦ rw fresh (marks-Seen event.event_id _ h)
    ])
  ]

  ledger_parts : (m : Matchers) (min_confidence : ℕ) → Parts m min_confidence Seen
  unfolding Seen
  ledger_parts m min_confidence = record {
    marks = marks-Seen;
    resolves = resolves-Seen;
    takes = takes-Seen m min_confidence;
    edits = edits-Seen m min_confidence;
    deletes = deletes-Seen;
    ticks = λ now s h. h;
    settles = λ letters acked s h. h;
  }

-- A message that is delivered again, after its handling and any run of the loop, changes nothing:
-- no second task and no second event, on each branch of the handler.
pub handle_message_again :
    (m : Matchers) (min_confidence : ℕ) (decode : Decoders) (event : TelegramMessageEvent)
    (reads : List (Result (List Entry))) (s : State)
    → let later = run m min_confidence decode reads (handle_message m min_confidence event s) in
      handle_message m min_confidence event later ≡ later
unfolding Seen
handle_message_again m min_confidence decode event reads s =
    let later = run m min_confidence decode reads (handle_message m min_confidence event s) in
    elim (Bool-cases (is_empty (stripped event.content))) [
      | inl void ↦ ignores m min_confidence event later void
      | inr full ↦ skips m min_confidence event later (
          run_keeps (ledger_parts event.event_id m min_confidence) decode reads _
            (is_processed-handle_message m min_confidence event s full))
    ]
