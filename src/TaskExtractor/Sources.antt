-- ===== src/TaskExtractor/Sources.antt =====
-- The messages that tasks come from: no two tasks from one message, as consumer.py looks before it
-- creates, and the time of the closing of a task.
use personal_intelligence.Base.{
  ℕ, ◌≡◌, refl, ◌∙◌, Bool, true, false, not, Option, none, some, List, [], ◌∷◌, ◌++◌, Text, ℤ,
  int_eq, nat_eq, ==_symm, inl, inr, Bool-cases, Option-cases, All, All-append, keep_if, is_empty,
}
use personal_intelligence.Exec.{Result}
use personal_intelligence.Contracts.{
  TelegramMessageEvent, TelegramMessageEditedEvent, TelegramMessageDeletedEvent,
}
use personal_intelligence.TaskExtractor.Rules.{TaskCandidate}
use personal_intelligence.TaskExtractor.Rules.Due.{Matchers}
use personal_intelligence.TaskExtractor.State.{Task, State}
use personal_intelligence.TaskExtractor.Consumer.{
  is_processed, mark_processed, publish, close_replied, resolve_reply, create_task, take_candidate,
  edit_task, edit_existing, handle_message_deleted, Entry, Decoders, run,
}
use personal_intelligence.TaskExtractor.Consumer.Queries.{
  update_where, is_open, is_source, is_closable, finish, drop_task, find_task_by_source_message,
  ensure_chat,
}
use personal_intelligence.TaskExtractor.Keeping.{Parts, run_keeps}
use personal_intelligence.TaskExtractor.Lifecycle.{ensure_person-tasks}

abbrev pub has_resolved_at : Task → Bool
has_resolved_at t = elim t.resolved_at [ none ↦ false | some at ↦ true ]

abbrev pub has_source_of : Task → Task → Bool
has_source_of t u = is_source t.source.tg_chat_id t.source.tg_message_id u

-- Each task has a time of resolution just if it is closed, and no later task has the source of an
-- earlier one.
abbrev pub IsValid : List Task → Type 0
IsValid [] = Unit
IsValid (t ∷ ts) =
    (has_resolved_at t ≡ not (is_open t))
    × All (λ (u : Task). has_source_of t u ≡ false) ts
    × IsValid ts

-- A change of a row that keeps the source, and the two sides of the first condition.
pub record IsSafe (f : Task → Task) : Type 0 where
  pub keeps_source : (t : Task) → (f t).source ≡ t.source
  pub keeps_times :
      (t : Task) → has_resolved_at t ≡ not (is_open t) → has_resolved_at (f t) ≡ not (is_open (f t))

none_of-update_where :
    (t : Task) (p : Task → Bool) (f : Task → Task) (ts : List Task)
    → IsSafe f
    → All (λ (u : Task). has_source_of t u ≡ false) ts
    → All (λ (u : Task). has_source_of t u ≡ false) (update_where p f ts)
unfolding update_where
none_of-update_where t p f [] safe h = tt
none_of-update_where t p f (u ∷ us) safe h = (
  (elim (Bool-cases (p u)) [
    | inl hit ↦ rw hit (rw (safe.keeps_source u) h.0)
    | inr miss ↦ rw miss h.0
  ]),
  none_of-update_where t p f us safe h.1,
)

IsValid-update_where :
    (p : Task → Bool) (f : Task → Task) (ts : List Task)
    → IsSafe f
    → IsValid ts
    → IsValid (update_where p f ts)
unfolding update_where
IsValid-update_where p f [] safe h = tt
IsValid-update_where p f (t ∷ ts) safe h = elim (Bool-cases (p t)) [
  | inl hit ↦ rw hit (
    safe.keeps_times t h.0,
    rw (safe.keeps_source t) (none_of-update_where t p f ts safe h.1),
    IsValid-update_where p f ts safe h.2,
  )
  | inr miss ↦
      rw miss (h.0, none_of-update_where t p f ts safe h.1, IsValid-update_where p f ts safe h.2)
]

-- What `fetchrow` finds none of, no row matches.
none_of-find :
    (chat message : ℤ) (ts : List Task)
    → find_task_by_source_message chat message ts ≡ none
    → All (λ (u : Task). is_source chat message u ≡ false) ts
unfolding find_task_by_source_message
none_of-find chat message [] = λ h. tt
none_of-find chat message (t ∷ ts) =
    elim (Option-cases (find_task_by_source_message chat message ts)) [
      | inr (later, found) ↦ rw found (λ h. absurd cc)
      | inl nothing ↦ rw nothing (elim (Bool-cases (is_source chat message t)) [
        | inl hit ↦ rw hit (λ h. absurd cc)
        | inr miss ↦ rw miss (λ h. (refl, none_of-find chat message ts nothing))
      ])
    ]

has_source_of_symm : (t u : Task) → has_source_of t u ≡ has_source_of u t
has_source_of_symm t u =
    rw
      (
        ==_symm u.source.tg_chat_id t.source.tg_chat_id,
        ==_symm u.source.tg_message_id t.source.tg_message_id,
      )
      refl

IsValid-snoc :
    (ts : List Task) (new : Task)
    → has_resolved_at new ≡ not (is_open new)
    → All (λ (u : Task). has_source_of new u ≡ false) ts
    → IsValid ts
    → IsValid (ts ++ new ∷ [])
IsValid-snoc [] new times fresh h = (times, tt, tt)
IsValid-snoc (t ∷ ts) new times fresh h = (
  h.0,
  All-append _ ts _ h.1 (has_source_of_symm t new ∙ fresh.0, tt),
  IsValid-snoc ts new times fresh.1 h.2,
)

abbrev pub HasValidTasks : State → Type 0
HasValidTasks s = IsValid s.tasks

finish-IsSafe : (at now : ℕ) → IsSafe (finish at now)
finish-IsSafe at now = record { keeps_source = λ t. refl; keeps_times = λ t h. refl }

drop_task-IsSafe : (now : ℕ) → IsSafe (drop_task now)
drop_task-IsSafe now = record { keeps_source = λ t. refl; keeps_times = λ t h. refl }

module _ (m : Matchers) (min_confidence : ℕ) where
  edit_task-IsSafe : (now : ℕ) (c : TaskCandidate) → IsSafe (edit_task m min_confidence now c)
  edit_task-IsSafe now c = record { keeps_source = λ t. refl; keeps_times = λ t h. h }

  replied :
      (event : TelegramMessageEvent) (content : Text) (hits : List Task) (s : State)
      → HasValidTasks s
      → HasValidTasks (close_replied event content hits s).1
  unfolding publish
  replied event content [] s h = h
  replied event content (t ∷ ts) s h = h

  resolves-HasValidTasks :
      (event : TelegramMessageEvent) (content : Text) (reply : Option ℤ) (s : State)
      → HasValidTasks s
      → HasValidTasks (resolve_reply event content reply s).1
  resolves-HasValidTasks event content none s h = h
  resolves-HasValidTasks event content (some reply) s h =
      let matches = is_closable event.tg_chat_id (reply ∷ []) in
      replied event content (keep_if matches s.tasks) _ (
        IsValid-update_where matches (finish event.occurred_at s.clock) s.tasks
          (finish-IsSafe event.occurred_at s.clock) h)

  creates-HasValidTasks :
      (event : TelegramMessageEvent) (c : TaskCandidate) (s : State)
      → find_task_by_source_message event.tg_chat_id event.tg_message_id s.tasks ≡ none
      → HasValidTasks s
      → HasValidTasks (create_task event c s).1
  unfolding create_task ensure_chat
  creates-HasValidTasks event c s missing h =
      rw
        (ensure_person-tasks event.tg_sender_id event.tg_sender_username event.tg_sender_name
          (ensure_chat event s).1)
        (IsValid-snoc s.tasks _ refl
          (none_of-find event.tg_chat_id event.tg_message_id s.tasks missing) h)

  takes-HasValidTasks :
      (event : TelegramMessageEvent) (c : TaskCandidate) (s : State)
      → HasValidTasks s
      → HasValidTasks (take_candidate m min_confidence event c s)
  unfolding mark_processed publish
  takes-HasValidTasks event c s h =
      elim (Option-cases
        (find_task_by_source_message event.tg_chat_id event.tg_message_id s.tasks)) [
          | inl missing ↦ rw (missing, take_candidate) (creates-HasValidTasks event c s missing h)
          | inr (t, found) ↦ rw (found, take_candidate) h
        ]

  edits-HasValidTasks :
      (event : TelegramMessageEditedEvent) (c : Option TaskCandidate) (t : Option Task) (s : State)
      → HasValidTasks s
      → HasValidTasks (edit_existing m min_confidence event c t s)
  edits-HasValidTasks event c none s h = h
  edits-HasValidTasks event none (some t) s h = h
  edits-HasValidTasks event (some c) (some t) s h =
      IsValid-update_where _ (edit_task m min_confidence s.clock c) s.tasks
        (edit_task-IsSafe s.clock c) h

  deletes-HasValidTasks :
      (event : TelegramMessageDeletedEvent) (s : State)
      → HasValidTasks s
      → HasValidTasks (handle_message_deleted event s)
  unfolding handle_message_deleted mark_processed
  deletes-HasValidTasks event s h = elim (Bool-cases (is_empty event.tg_message_ids)) [
    | inl void ↦ rw void h
    | inr full ↦ rw full (elim (Bool-cases (is_processed event.event_id s)) [
      | inl seen ↦ rw seen h
      | inr fresh ↦
          rw fresh (IsValid-update_where _ (drop_task s.clock) s.tasks (drop_task-IsSafe s.clock) h)
    ])
  ]

  valid_parts : Parts m min_confidence HasValidTasks
  unfolding mark_processed
  valid_parts = record {
    marks = λ id s h. h;
    resolves = resolves-HasValidTasks;
    takes = takes-HasValidTasks;
    edits = edits-HasValidTasks;
    deletes = deletes-HasValidTasks;
    ticks = λ now s h. h;
    settles = λ letters acked s h. h;
  }

  -- If in the table no two tasks come from one message and a task has a time of resolution just if
  -- it is closed, then this is so after any run of the loop.
  pub run-HasValidTasks :
      (decode : Decoders) (reads : List (Result (List Entry))) (s : State)
      → HasValidTasks s
      → HasValidTasks (run m min_confidence decode reads s)
  run-HasValidTasks decode reads s h = run_keeps valid_parts decode reads s h
