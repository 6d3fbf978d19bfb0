-- ===== src/TaskExtractor/Keeping.antt =====
-- A proof rule: what the parts of the handlers of consumer.py keep, every handler and every run of
-- the loop keeps.
use personal_intelligence.Base.{
  ℕ, Bool, true, false, Option, none, some, List, [], ◌∷◌, Text, ℤ, inl, inr, Bool-cases, is_empty,
  ltb, text, if◌then◌else◌, text_eq, ◌==◌,
}
use personal_intelligence.Exec.{Result, ok, err}
use personal_intelligence.Contracts.{
  TelegramMessageEvent, TelegramMessageEditedEvent, TelegramMessageDeletedEvent,
}
use personal_intelligence.TaskExtractor.Rules.{TaskCandidate, detect_resolution}
use personal_intelligence.TaskExtractor.Rules.Due.{Matchers}
use personal_intelligence.TaskExtractor.State.{Task, State, DeadLetter}
use personal_intelligence.TaskExtractor.Consumer.{
  is_processed, mark_processed, stripped, resolve_reply, resolve_replied_task, take_candidate,
  look_for_task, after_reply, handle_message, edit_existing, handle_message_edited,
  handle_message_deleted, Entry, Decoders, and_handle, process_stream, settle, deliver, run_entries,
  run,
}

-- The parts of the handlers that write, for a property of the state.
pub record Parts (m : Matchers) (min_confidence : ℕ) (P : State → Type 0) : Type 0 where
  pub marks : (id : Text) (s : State) → P s → P (mark_processed id s)
  pub resolves :
      (event : TelegramMessageEvent) (content : Text) (reply : Option ℤ) (s : State)
      → P s
      → P (resolve_reply event content reply s).1
  pub takes :
      (event : TelegramMessageEvent) (c : TaskCandidate) (s : State)
      → P s
      → P (take_candidate m min_confidence event c s)
  pub edits :
      (event : TelegramMessageEditedEvent) (c : Option TaskCandidate) (t : Option Task) (s : State)
      → P s
      → P (edit_existing m min_confidence event c t s)
  pub deletes :
      (event : TelegramMessageDeletedEvent) (s : State) → P s → P (handle_message_deleted event s)
  pub ticks : (now : ℕ) (s : State) → P s → P (record s { clock = now })
  pub settles :
      (letters : List DeadLetter) (acked : List Text) (s : State)
      → P s
      → P (record s { dead_letters = letters; acked = acked })

module _ {m : Matchers} {min_confidence : ℕ} {P : State → Type 0}
    (parts : Parts m min_confidence P) where
  open parts use {marks, resolves, takes, edits, deletes, ticks, settles}

  looks :
      (event : TelegramMessageEvent) (c : Option TaskCandidate) (s : State)
      → P s
      → P (look_for_task m min_confidence event c s)
  looks event none s h = marks event.event_id s h
  looks event (some c) s h = elim (Bool-cases (ltb c.confidence min_confidence)) [
    | inl low ↦ rw low (marks event.event_id s h)
    | inr high ↦ rw high (takes event c s h)
  ]

  goes_on :
      (event : TelegramMessageEvent) (content : Text) (resolved : Option ℕ) (s : State)
      → P s
      → P (after_reply m min_confidence event content resolved s)
  goes_on event content none s h = looks event _ s h
  goes_on event content (some task) s h = marks event.event_id s h

  pub handle_message_keeps :
      (event : TelegramMessageEvent) (s : State) → P s → P (handle_message m min_confidence event s)
  unfolding handle_message resolve_replied_task
  handle_message_keeps event s h = elim (Bool-cases (is_empty content)) [
    | inl void ↦ rw void h
    | inr full ↦ rw full (elim (Bool-cases (is_processed event.event_id s)) [
      | inl seen ↦ rw seen h
      | inr fresh ↦ rw fresh (elim (Bool-cases (detect_resolution m content)) [
        | inl answer ↦ rw answer (goes_on event content _ _ (resolves event content _ s h))
        | inr plain ↦ rw plain (goes_on event content none s h)
      ])
    ])
  ]
    where
      content : Text
      content = stripped event.content

  pub handle_message_edited_keeps :
      (event : TelegramMessageEditedEvent) (s : State)
      → P s
      → P (handle_message_edited m min_confidence event s)
  unfolding handle_message_edited
  handle_message_edited_keeps event s h = elim (Bool-cases (is_empty (stripped event.new_text))) [
    | inl void ↦ rw void h
    | inr full ↦ rw full (elim (Bool-cases (is_processed event.event_id s)) [
      | inl seen ↦ rw seen h
      | inr fresh ↦ rw fresh (marks event.event_id _ (edits event _ _ s h))
    ])
  ]

  if_keeps : (b : Bool) (t u : Result (Unit {0}) × State) → P t.1 → P u.1 → P (if b then t else u).1
  if_keeps true t u ht hu = ht
  if_keeps false t u ht hu = hu

  and_handle_keeps :
      {A : Type 0} (r : Result A) (f : A → State → State) (s : State)
      → ((a : A) (s : State) → P s → P (f a s))
      → P s
      → P (and_handle r f s).1
  and_handle_keeps (ok a) f s kf h = kf a s h
  and_handle_keeps (err e) f s kf h = h

  module _ (decode : Decoders) where
    process_keeps :
        (entry : Entry) (s : State) → P s → P (process_stream m min_confidence decode entry s).1
    unfolding process_stream
    process_keeps entry s h =
        if_keeps (entry.stream == text "events.telegram.message") _ _
          (and_handle_keeps (decode.message entry.raw) _ s handle_message_keeps h)
          (if_keeps (entry.stream == text "events.telegram.message_edited") _ _
            (and_handle_keeps (decode.edited entry.raw) _ s handle_message_edited_keeps h)
            (if_keeps (entry.stream == text "events.telegram.message_deleted") _ _
              (and_handle_keeps (decode.deleted entry.raw) _ s deletes h) h))

    settle_keeps :
        (entry : Entry) (r : Result (Unit {0})) (s : State)
        → P s
        → P (settle m min_confidence decode entry r s)
    settle_keeps entry (ok u) s h = settles s.dead_letters _ s h
    settle_keeps entry (err e) s h = settles _ _ s h

    deliver_keeps : (entry : Entry) (s : State) → P s → P (deliver m min_confidence decode entry s)
    unfolding deliver
    deliver_keeps entry s h =
        settle_keeps entry _ _ (process_keeps entry _ (ticks entry.handled_at s h))

    run_entries_keeps :
        (entries : List Entry) (s : State) → P s → P (run_entries m min_confidence decode entries s)
    unfolding run_entries
    run_entries_keeps [] s h = h
    run_entries_keeps (entry ∷ entries) s h =
        run_entries_keeps entries (deliver m min_confidence decode entry s)
          (deliver_keeps entry s h)

    pub run_keeps :
        (reads : List (Result (List Entry))) (s : State)
        → P s
        → P (run m min_confidence decode reads s)
    unfolding run
    run_keeps [] s h = h
    run_keeps (err e ∷ reads) s h = run_keeps reads s h
    run_keeps (ok entries ∷ reads) s h = run_keeps reads _ (run_entries_keeps entries s h)
