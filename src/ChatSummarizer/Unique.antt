-- ===== src/ChatSummarizer/Unique.antt =====
-- One interaction for a chat and a start of a window, whatever is flushed.
use personal_intelligence.Base.{
  ℕ, ◌≡◌, refl, ◌∙◌, Option, none, some, List, [], ◌∷◌, Text, ℤ, int_eq, elem, is_empty, Bool-cases,
  inl, inr,
}
use personal_intelligence.Exec.{Result, ok, err, Exec, raise, modify}
use personal_intelligence.Exec.Preserves.{Preserves, preserves_rules, pure-Preserves}
use personal_intelligence.Contracts.{
  TelegramMessageEvent, TelegramMessageEditedEvent, InteractionUpdatedEvent,
}
use personal_intelligence.Store.Interactions.{
  Interaction, IsUnique, KeepsKey, IsUnique-upsert_interaction, IsUnique-update,
}
use personal_intelligence.ChatSummarizer.Tables.{Db}
use personal_intelligence.ChatSummarizer.Windows.{
  WindowMessage, State, is_processed, mark_processed, stripped, edit_entries, rewrite_window,
  edit_window, handle_edited_message,
}
use personal_intelligence.ChatSummarizer.Heuristics.{SummaryResult}
use personal_intelligence.ChatSummarizer.Queries.{
  ensure_chat, refresh_chat_metadata, ensure_person, add_participant, participants_from,
  ensure_participants, refresh, upsert_interaction, with_ref, set_interaction_object_ref,
}
use personal_intelligence.ChatSummarizer.Consumer.{
  Settings, Services, Incoming, message, message_edited, unknown_stream, Entry, delete_window,
  on_db, write_db, transaction, end_transaction, store_object, put_object, publish,
  write_interaction, flush_messages, flush_window, store_message, accept_message, handle_message,
  process_stream, process_payload, settle, deliver, run_entries, run,
}

abbrev pub HasUnique : State → Type 0
HasUnique s = IsUnique s.db.interactions

add_participant-interactions :
    (user : Option ℤ) (name : Option Text) (seen : List ℤ) (db : Db)
    → (add_participant user name seen db).2.interactions ≡ db.interactions
unfolding ensure_person
add_participant-interactions none name seen db = refl
add_participant-interactions (some user) name seen db = elim (Bool-cases (elem user seen)) [
  | inl known ↦ rw known refl
  | inr new ↦ rw new refl
]

participants_from-interactions :
    (seen : List ℤ) (ms : List WindowMessage) (db : Db)
    → (participants_from seen ms db).1.interactions ≡ db.interactions
unfolding participants_from
participants_from-interactions seen [] db = refl
participants_from-interactions seen (m ∷ ms) db =
    let (seen', ids, db') = add_participant m.tg_sender_id m.tg_sender_name seen db in
    participants_from-interactions seen' ms db'
    ∙ add_participant-interactions m.tg_sender_id m.tg_sender_name seen db

refresh-KeepsKey : (new : Interaction) → KeepsKey (refresh new)
refresh-KeepsKey new = record {
  keeps_id = λ r. refl;
  keeps_chat = λ r. refl;
  keeps_start = λ r. refl;
}

with_ref-KeepsKey : (key : Text) → KeepsKey (with_ref key)
with_ref-KeepsKey key = record {
  keeps_id = λ r. refl;
  keeps_chat = λ r. refl;
  keeps_start = λ r. refl;
}

-- A write of other tables than the interactions
on_db-same :
    {A : Type 0} (f : Db → A × Db)
    → ((db : Db) → (f db).1.interactions ≡ db.interactions)
    → Preserves HasUnique (on_db f)
unfolding on_db
on_db-same f same = record { preserved = λ s inv. rw (same s.db) inv }

-- A write of other parts of the state than the tables
modify-same : (f : State → State) → ((s : State) → (f s).db ≡ s.db) → Preserves HasUnique (modify f)
unfolding modify
modify-same f same = record { preserved = λ s inv. rw (same s) inv }

module _ (services : Services) (chat : ℤ) (trace_id : Option Text) where
  ensure_chat-Preserves : Preserves HasUnique (on_db (ensure_chat chat))
  unfolding ensure_chat
  ensure_chat-Preserves = on_db-same (ensure_chat chat) (λ db. refl)

  refresh_chat-Preserves :
      (id : ℕ) (m : WindowMessage) → Preserves HasUnique (write_db (refresh_chat_metadata id m))
  unfolding refresh_chat_metadata modify
  refresh_chat-Preserves id m = record { preserved = λ s inv. inv }

  ensure_participants-Preserves :
      (ms : List WindowMessage) → Preserves HasUnique (on_db (ensure_participants ms))
  unfolding ensure_participants
  ensure_participants-Preserves ms =
      on_db-same (ensure_participants ms) (λ db. participants_from-interactions [] ms db)

  upsert-Preserves : (new : Interaction) → Preserves HasUnique (on_db (upsert_interaction new))
  unfolding on_db upsert_interaction
  upsert-Preserves new = record {
    preserved = λ s inv.
        IsUnique-upsert_interaction (refresh new) new s.db.interactions (refresh-KeepsKey new) inv;
  }

  set_ref-Preserves :
      (id : ℕ) (key : Text) → Preserves HasUnique (write_db (set_interaction_object_ref id key))
  unfolding set_interaction_object_ref modify
  set_ref-Preserves id key = record {
    preserved =
        λ s inv. IsUnique-update id (with_ref key) s.db.interactions (with_ref-KeepsKey key) inv;
  }

  objects-Preserves :
      (add : State → List (Text × List WindowMessage))
      → Preserves HasUnique (modify (λ s. record s { objects = add s }))
  objects-Preserves add = modify-same _ (λ s. refl)

  publish-Preserves :
      (event : InteractionUpdatedEvent) → Preserves HasUnique (publish services chat trace_id event)
  publish-Preserves event = modify-same _ (λ s. refl)

  store_object-Preserves :
      (id : ℕ) (key : Text) (ms : List WindowMessage) (stored : Result Text)
      → Preserves HasUnique (store_object services chat trace_id id key ms stored)
  unfolding raise
  store_object-Preserves id key ms (err e) = record { preserved = λ s inv. inv }
  store_object-Preserves id key ms (ok ref) =
      search (preserves_rules, objects-Preserves, set_ref-Preserves) depth 10

  put_object-Preserves :
      (id : ℕ) (ms : List WindowMessage) (put : Option (Text → Result Text))
      → Preserves HasUnique (put_object services chat trace_id id ms put)
  put_object-Preserves id ms none = pure-Preserves tt
  put_object-Preserves id ms (some put) = store_object-Preserves id _ ms _

  write_interaction-Preserves :
      (first : WindowMessage) (rest : List WindowMessage) (summary : SummaryResult)
      → Preserves HasUnique (write_interaction services chat trace_id first rest summary)
  unfolding write_interaction
  write_interaction-Preserves first rest summary =
      search
        (
          preserves_rules, ensure_chat-Preserves, refresh_chat-Preserves,
          ensure_participants-Preserves, upsert-Preserves, put_object-Preserves, publish-Preserves,
        )
        depth 40

  transaction-Preserves :
      {A : Type 0} (m : Exec State A) → Preserves HasUnique m → Preserves HasUnique (transaction m)
  unfolding transaction
  transaction-Preserves {A = A} m keeps = record {
    preserved = λ s inv. ended (m s).0 (m s).1 s inv (keeps.preserved s inv);
  }
    where
      ended :
          (r : Result A) (s' s : State)
          → HasUnique s
          → HasUnique s'
          → HasUnique (end_transaction s.db r s').1
      ended (ok a) s' s before after = after
      ended (err e) s' s before after = before

  delete_window-Preserves : Preserves HasUnique (modify (delete_window chat))
  unfolding delete_window
  delete_window-Preserves = modify-same _ (λ s. refl)

  flush_messages-Preserves :
      (ms : List WindowMessage) → Preserves HasUnique (flush_messages services chat trace_id ms)
  flush_messages-Preserves [] = pure-Preserves tt
  flush_messages-Preserves (first ∷ rest) =
      search
        (
          preserves_rules, transaction-Preserves, write_interaction-Preserves,
          delete_window-Preserves,
        )
        depth 20

  flush_window-Preserves : Preserves HasUnique (flush_window services chat trace_id)
  unfolding flush_window
  flush_window-Preserves = search (preserves_rules, flush_messages-Preserves) depth 10

edit_window-db :
    (minutes : ℕ) (event : TelegramMessageEditedEvent) (content : Text)
    (window : List WindowMessage) (s : State)
    → (edit_window minutes event content window s).db ≡ s.db
unfolding rewrite_window
edit_window-db minutes event content [] s = refl
edit_window-db minutes event content (entry ∷ entries) s =
    elim (Bool-cases (edit_entries event.tg_message_id content (entry ∷ entries)).1) [
      | inl changed ↦ rw changed refl
      | inr unchanged ↦ rw unchanged refl
    ]

handle_edited_message-db :
    (minutes : ℕ) (event : TelegramMessageEditedEvent) (s : State)
    → (handle_edited_message minutes event s).db ≡ s.db
unfolding handle_edited_message mark_processed
handle_edited_message-db minutes event s = elim (Bool-cases (is_empty (stripped event.new_text))) [
  | inl blank ↦ rw blank refl
  | inr full ↦ rw full (elim (Bool-cases (is_processed event.event_id s)) [
    | inl seen ↦ rw seen refl
    | inr fresh ↦
        rw fresh (
          edit_window-db minutes event (stripped event.new_text) _
            (mark_processed event.event_id s))
  ])
]

module _ (settings : Settings) (services : Services) where
  mark-Preserves : (id : Text) → Preserves HasUnique (modify (mark_processed id))
  unfolding mark_processed
  mark-Preserves id = modify-same _ (λ s. refl)

  store_message-Preserves :
      (chat : ℤ) (m : WindowMessage)
      → Preserves HasUnique (modify (store_message settings services chat m))
  unfolding store_message
  store_message-Preserves chat m = modify-same _ (λ s. refl)

  accept_message-Preserves :
      (event : TelegramMessageEvent) → Preserves HasUnique (accept_message settings services event)
  unfolding accept_message
  accept_message-Preserves event =
      search (preserves_rules, flush_window-Preserves, store_message-Preserves) depth 20

  handle_message-Preserves :
      (event : TelegramMessageEvent) → Preserves HasUnique (handle_message settings services event)
  unfolding handle_message
  handle_message-Preserves event =
      search (preserves_rules, mark-Preserves, accept_message-Preserves) depth 20

  process_payload-HasUnique :
      (payload : Result Incoming) (s : State)
      → HasUnique s
      → HasUnique (process_payload settings services payload s).1
  unfolding process_stream raise
  process_payload-HasUnique (err e) s inv = inv
  process_payload-HasUnique (ok (message event)) s inv =
      (handle_message-Preserves event).preserved s inv
  process_payload-HasUnique (ok (message_edited event)) s inv =
      (modify-same _
          (handle_edited_message-db settings.summarizer_time_window_minutes event)).preserved
        s inv
  process_payload-HasUnique (ok unknown_stream) s inv =
      (pure-Preserves {Inv = HasUnique} tt).preserved s inv

  settle-HasUnique :
      (id : Text) (r : Result (Unit {0})) (s : State)
      → HasUnique s
      → HasUnique (settle settings services id r s)
  settle-HasUnique id (ok done) s inv = inv
  settle-HasUnique id (err e) s inv = inv

  run_entries-HasUnique :
      (entries : List Entry) (s : State)
      → HasUnique s
      → HasUnique (run_entries settings services entries s)
  unfolding run_entries deliver
  run_entries-HasUnique [] s inv = inv
  run_entries-HasUnique (entry ∷ entries) s inv = run_entries-HasUnique entries _ (
      settle-HasUnique entry.msg_id _ _
        (process_payload-HasUnique entry.payload (record s { clock = entry.read_at }) inv))

  -- If no two interactions are of one chat and one start of a window, then this is so after any run of
  -- the loop, whatever is read and whatever the summaries and the object store raise.
  pub run-IsUnique :
      (reads : List (Result (List Entry))) (s : State)
      → HasUnique s
      → HasUnique (run settings services reads s)
  unfolding run
  run-IsUnique [] s inv = inv
  run-IsUnique (err e ∷ reads) s inv = run-IsUnique reads s inv
  run-IsUnique (ok entries ∷ reads) s inv =
      run-IsUnique reads _ (run_entries-HasUnique entries s inv)
