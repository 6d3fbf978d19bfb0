-- ===== src/TaskExtractor/Lifecycle.antt =====
-- The life of a task in consumer.py: open, then done or dropped, and nothing after that.
use personal_intelligence.Base.{
  ℕ, ◌≡◌, refl, ◌∙◌, Bool, true, false, ◌&&◌, Option, none, some, List, [], ◌∷◌, ◌++◌, Text, ℤ, inl,
  inr, Bool-cases, arith, ◌==◌, nat_eq, int_eq, keep_if, is_empty, Option-cases,
}
use personal_intelligence.Exec.{Result}
use personal_intelligence.Contracts.{
  TelegramMessageEvent, TelegramMessageEditedEvent, TelegramMessageDeletedEvent,
}
use personal_intelligence.TaskExtractor.Rules.{TaskCandidate}
use personal_intelligence.TaskExtractor.Rules.Due.{Matchers}
use personal_intelligence.TaskExtractor.State.{Task, State}
use personal_intelligence.TaskExtractor.Consumer.{
  is_processed, mark_processed, publish, close_replied, resolve_reply, create_task, take_candidate,
  edit_task, edit_existing, handle_message_deleted, Entry, Decoders, run,
}
use personal_intelligence.TaskExtractor.Consumer.Queries.{
  update_where, is_open, is_closable, finish, drop_task, find_task_by_source_message, ensure_chat,
  ensure_person,
}
use personal_intelligence.TaskExtractor.Keeping.{Parts, run_keeps}

-- What a row may become: it keeps its id and its source, and a closed row stays as it is.
pub record Succeeds (t u : Task) : Type 0 where
  pub same_id : u.id ≡ t.id
  pub same_source : u.source ≡ t.source
  pub frozen : is_open t ≡ false → u ≡ t

-- The rows of a table later on: each row is there, at its place, with what it became; new rows
-- follow.
abbrev pub Evolves : List Task → List Task → Type 0
Evolves [] us = Unit
Evolves (t ∷ ts) [] = ⊥
Evolves (t ∷ ts) (u ∷ us) = Succeeds t u × Evolves ts us

Succeeds-refl : (t : Task) → Succeeds t t
Succeeds-refl t = record { same_id = refl; same_source = refl; frozen = λ _. refl }

Succeeds-trans : (t u v : Task) → Succeeds t u → Succeeds u v → Succeeds t v
Succeeds-trans t u v h k = record {
  same_id = k.same_id ∙ h.same_id;
  same_source = k.same_source ∙ h.same_source;
  frozen = λ closed. k.frozen (rw (h.frozen closed) closed) ∙ h.frozen closed;
}

Evolves-refl : (ts : List Task) → Evolves ts ts
Evolves-refl [] = tt
Evolves-refl (t ∷ ts) = (Succeeds-refl t, Evolves-refl ts)

Evolves-trans : (ts us vs : List Task) → Evolves ts us → Evolves us vs → Evolves ts vs
Evolves-trans [] us vs h k = tt
Evolves-trans (t ∷ ts) [] vs h k = elim h [ ]
Evolves-trans (t ∷ ts) (u ∷ us) [] h k = elim k [ ]
Evolves-trans (t ∷ ts) (u ∷ us) (v ∷ vs) h k =
    (Succeeds-trans t u v h.0 k.0, Evolves-trans ts us vs h.1 k.1)

Evolves-append : (ts us : List Task) → Evolves ts (ts ++ us)
Evolves-append [] us = tt
Evolves-append (t ∷ ts) us = (Succeeds-refl t, Evolves-append ts us)

-- An UPDATE whose condition asks for open rows, and that leaves the id and the source.
Evolves-update_where :
    (p : Task → Bool) (f : Task → Task) (ts : List Task)
    → ((t : Task) → p t ≡ true → is_open t ≡ true)
    → ((t : Task) → (f t).id ≡ t.id)
    → ((t : Task) → (f t).source ≡ t.source)
    → Evolves ts (update_where p f ts)
unfolding update_where
Evolves-update_where p f [] only_open keeps_id keeps_source = tt
Evolves-update_where p f (t ∷ ts) only_open keeps_id keeps_source = (
  (elim (Bool-cases (p t)) [
    | inl hit ↦ rw hit (record {
      same_id = keeps_id t;
      same_source = keeps_source t;
      frozen = λ closed. cc (only_open t hit);
    })
    | inr miss ↦ rw miss (Succeeds-refl t)
  ]),
  Evolves-update_where p f ts only_open keeps_id keeps_source,
)

closable_open :
    (chat : ℤ) (messages : List ℤ) (t : Task)
    → is_closable chat messages t ≡ true
    → is_open t ≡ true
closable_open chat messages t h = ground arith

editable_open : (id : ℕ) (t : Task) → (t.id == id && is_open t) ≡ true → is_open t ≡ true
editable_open id t h = ground arith

pub ensure_person-tasks :
    (user : Option ℤ) (username name : Option Text) (s : State)
    → (ensure_person user username name s).1.tasks ≡ s.tasks
unfolding ensure_person
ensure_person-tasks none username name s = refl
ensure_person-tasks (some user) username name s = refl

module _ (start : List Task) where
  abbrev After : State → Type 0
  After s = Evolves start s.tasks

  from : (s : State) (us : List Task) → Evolves s.tasks us → After s → Evolves start us
  from s us step h = Evolves-trans start s.tasks us h step

  resolves-After :
      (event : TelegramMessageEvent) (content : Text) (reply : Option ℤ) (s : State)
      → After s
      → After (resolve_reply event content reply s).1
  unfolding publish
  resolves-After event content none s h = h
  resolves-After event content (some reply) s h = replied (keep_if matches s.tasks) _ (
      from s _
        (Evolves-update_where matches (finish event.occurred_at s.clock) s.tasks
          (closable_open event.tg_chat_id (reply ∷ [])) (λ t. refl) (λ t. refl))
        h)
    where
      matches : Task → Bool
      matches = is_closable event.tg_chat_id (reply ∷ [])

      replied :
          (hits : List Task) (s : State) → After s → After (close_replied event content hits s).1
      replied [] s h = h
      replied (t ∷ ts) s h = h

  creates-After :
      (event : TelegramMessageEvent) (c : TaskCandidate) (s : State)
      → After s
      → After (create_task event c s).1
  unfolding create_task ensure_chat
  creates-After event c s h =
      from s _
        (rw
          (ensure_person-tasks event.tg_sender_id event.tg_sender_username event.tg_sender_name
            (ensure_chat event s).1)
          (Evolves-append s.tasks _))
        h

  takes-After :
      (m : Matchers) (min_confidence : ℕ) (event : TelegramMessageEvent) (c : TaskCandidate)
      (s : State)
      → After s
      → After (take_candidate m min_confidence event c s)
  unfolding mark_processed publish
  takes-After m min_confidence event c s h =
      elim (Option-cases
        (find_task_by_source_message event.tg_chat_id event.tg_message_id s.tasks)) [
          | inl missing ↦ rw (missing, take_candidate) (creates-After event c s h)
          | inr (t, found) ↦ rw (found, take_candidate) h
        ]

  edits-After :
      (m : Matchers) (min_confidence : ℕ) (event : TelegramMessageEditedEvent)
      (c : Option TaskCandidate) (t : Option Task) (s : State)
      → After s
      → After (edit_existing m min_confidence event c t s)
  edits-After m min_confidence event c none s h = h
  edits-After m min_confidence event none (some t) s h = h
  edits-After m min_confidence event (some c) (some t) s h =
      from s _
        (Evolves-update_where _ (edit_task m min_confidence s.clock c) s.tasks (editable_open t.id)
          (λ u. refl) (λ u. refl))
        h

  deletes-After :
      (event : TelegramMessageDeletedEvent) (s : State)
      → After s
      → After (handle_message_deleted event s)
  unfolding handle_message_deleted mark_processed
  deletes-After event s h = elim (Bool-cases (is_empty event.tg_message_ids)) [
    | inl void ↦ rw void h
    | inr full ↦ rw full (elim (Bool-cases (is_processed event.event_id s)) [
      | inl seen ↦ rw seen h
      | inr fresh ↦ rw fresh (
          from s _
            (Evolves-update_where _ (drop_task s.clock) s.tasks
              (closable_open event.tg_chat_id event.tg_message_ids) (λ t. refl) (λ t. refl))
            h)
    ])
  ]

  parts : (m : Matchers) (min_confidence : ℕ) → Parts m min_confidence After
  unfolding mark_processed
  parts m min_confidence = record {
    marks = λ id s h. h;
    resolves = resolves-After;
    takes = takes-After m min_confidence;
    edits = edits-After m min_confidence;
    deletes = deletes-After;
    ticks = λ now s h. h;
    settles = λ letters acked s h. h;
  }

-- Whatever the streams bring, and for any threshold and any matchers: a task that is in the table
-- when the loop starts is there at the end, at its place, with its id and the message that it came
-- from; and if it was done or dropped, it is the same in every field.
pub run-Evolves :
    (m : Matchers) (task_min_confidence : ℕ) (decode : Decoders)
    (reads : List (Result (List Entry))) (s : State)
    → Evolves s.tasks (run m task_min_confidence decode reads s).tasks
run-Evolves m task_min_confidence decode reads s =
    run_keeps (parts s.tasks m task_min_confidence) decode reads s (Evolves-refl s.tasks)
