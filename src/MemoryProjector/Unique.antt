-- ===== src/MemoryProjector/Unique.antt =====
-- One interaction for a chat and a start of a window, whatever is projected.
use personal_intelligence.Base.{
  ℕ, ◌≡◌, refl, Option, none, some, List, [], ◌∷◌, Text, ℤ, int_eq, elem, ◌∙◌, Bool-cases, ap, inl,
  inr,
}
use personal_intelligence.Exec.{Result, ok, err, Exec, raise, modify, ◌>>=◌}
use personal_intelligence.Exec.Preserves.{Preserves, preserves_rules, pure-Preserves}
use personal_intelligence.Contracts.{StructuredTask, WindowMessagePayload, ProjectionCommand}
use personal_intelligence.Store.Interactions.{
  Interaction, IsUnique, KeepsKey, IsUnique-upsert_interaction,
}
use personal_intelligence.MemoryProjector.Tables.{Db, Task, Window}
use personal_intelligence.MemoryProjector.Owner.{Settings}
use personal_intelligence.MemoryProjector.People.{
  ensure_chat, ensure_person, add_sender, add_senders, ensure_participants, keys_of,
}
use personal_intelligence.MemoryProjector.Windows.{
  upsert_analysis_window, replace_facts, replace_signals,
}
use personal_intelligence.MemoryProjector.Tasks.{
  sync_found, sync_task, sync_all, sync_tasks, find_task_for_evidence, evidence_id,
}
use personal_intelligence.MemoryProjector.Interactions.{
  refresh, upsert_interaction, write_audit_log,
}
use personal_intelligence.MemoryProjector.Atomic.{announce_db}
use personal_intelligence.MemoryProjector.Consumer.{
  State, Externals, Entry, Projection, is_processed, mark_processed, on_db, write_db, transaction,
  keep_artifact, put_artifact, write_artifact, project, end_transaction, announce,
  handle_projection, process_payload, deliver, run_entries, run,
}

abbrev pub HasUnique : State → Type 0
HasUnique s = IsUnique s.db.interactions

-- What the other steps of a projection do to the interactions: nothing.
module _ (settings : Settings) (chat : ℕ) where
  add_sender-interactions :
      (topics : List Text) (m : WindowMessagePayload) (sender : Option ℤ) (ps : List (ℤ × ℕ))
      (db : Db)
      → (add_sender settings chat topics m sender ps db).1.interactions ≡ db.interactions
  unfolding ensure_person
  add_sender-interactions topics m none ps db = refl
  add_sender-interactions topics m (some user) ps db =
      elim (Bool-cases (elem user (keys_of settings ps))) [
        | inl known ↦ rw known refl
        | inr new ↦ rw new refl
      ]

  add_senders-interactions :
      (topics : List Text) (ms : List WindowMessagePayload) (ps : List (ℤ × ℕ)) (db : Db)
      → (add_senders settings chat topics ms ps db).1.interactions ≡ db.interactions
  unfolding add_senders
  add_senders-interactions topics [] ps db = refl
  add_senders-interactions topics (m ∷ ms) ps db =
      let (ps', db') = add_sender settings chat topics m m.tg_sender_id ps db in
      add_senders-interactions topics ms ps' db'
      ∙ add_sender-interactions topics m m.tg_sender_id ps db

sync_found-interactions :
    (chat : ℕ) (owner counterpart : Option ℕ) (task : StructuredTask) (found : Option Task)
    (db : Db)
    → (sync_found chat owner counterpart task found db).1.interactions ≡ db.interactions
sync_found-interactions chat owner counterpart task none db = refl
sync_found-interactions chat owner counterpart task (some t) db = refl

sync_all-interactions :
    (chat : ℕ) (owner counterpart : Option ℕ) (tasks : List StructuredTask) (db : Db)
    → (sync_all chat owner counterpart tasks db).1.interactions ≡ db.interactions
unfolding sync_all sync_task
sync_all-interactions chat owner counterpart [] db = refl
sync_all-interactions chat owner counterpart (task ∷ tasks) db =
    let found = find_task_for_evidence chat (evidence_id task) db.tasks in
    sync_all-interactions chat owner counterpart tasks
      (sync_found chat owner counterpart task found db).1
    ∙ sync_found-interactions chat owner counterpart task found db

refresh-KeepsKey : (new : Interaction) → KeepsKey (refresh new)
refresh-KeepsKey new = record {
  keeps_id = λ r. refl;
  keeps_chat = λ r. refl;
  keeps_start = λ r. refl;
}

on_db-same :
    {A : Type 0} (f : Db → A × Db)
    → ((db : Db) → (f db).1.interactions ≡ db.interactions)
    → Preserves HasUnique (on_db f)
unfolding on_db
on_db-same f same = record { preserved = λ s inv. rw (same s.db) inv }

write_db-same :
    (f : Db → Db)
    → ((db : Db) → (f db).interactions ≡ db.interactions)
    → Preserves HasUnique (write_db f)
unfolding modify
write_db-same f same = record { preserved = λ s inv. rw (same s.db) inv }

module _ (settings : Settings) (x : Externals) (command : ProjectionCommand) where
  ensure_chat-Preserves : Preserves HasUnique (on_db (ensure_chat command))
  unfolding ensure_chat
  ensure_chat-Preserves = on_db-same (ensure_chat command) (λ db. refl)

  ensure_participants-Preserves :
      (chat : ℕ) → Preserves HasUnique (on_db (ensure_participants settings chat command))
  unfolding ensure_participants
  ensure_participants-Preserves chat =
      on_db-same (ensure_participants settings chat command)
        (λ db. add_senders-interactions settings chat _ command.messages [] db)

  window-Preserves : (w : Window) → Preserves HasUnique (write_db (upsert_analysis_window w))
  unfolding upsert_analysis_window
  window-Preserves w = write_db-same (upsert_analysis_window w) (λ db. refl)

  facts-Preserves : (w : Text) → Preserves HasUnique (write_db (replace_facts w command))
  unfolding replace_facts
  facts-Preserves w = write_db-same (replace_facts w command) (λ db. refl)

  signals-Preserves : (w : Text) → Preserves HasUnique (write_db (replace_signals w command))
  unfolding replace_signals
  signals-Preserves w = write_db-same (replace_signals w command) (λ db. refl)

  tasks-Preserves :
      (chat : ℕ) (ids : List ℕ) → Preserves HasUnique (on_db (sync_tasks chat ids command))
  unfolding sync_tasks
  tasks-Preserves chat ids =
      on_db-same (sync_tasks chat ids command)
        (λ db. sync_all-interactions chat _ _ command.result.tasks db)

  upsert-Preserves : (new : Interaction) → Preserves HasUnique (on_db (upsert_interaction new))
  unfolding on_db upsert_interaction
  upsert-Preserves new = record {
    preserved = λ s inv.
        IsUnique-upsert_interaction (refresh new) new s.db.interactions (refresh-KeepsKey new) inv;
  }

  audit-Preserves : Preserves HasUnique (write_db (write_audit_log command))
  unfolding write_audit_log
  audit-Preserves = write_db-same (write_audit_log command) (λ db. refl)

  mark-Preserves : (id : Text) → Preserves HasUnique (write_db (mark_processed id))
  unfolding mark_processed
  mark-Preserves id = write_db-same (mark_processed id) (λ db. refl)

  artifact-Preserves : (id : Text) → Preserves HasUnique (write_artifact x id command)
  unfolding write_artifact ◌>>=◌
  artifact-Preserves id = by_put x.put_raw
    where
      kept : (key : Text) (r : Result Text) → Preserves HasUnique (keep_artifact key command r)
      kept key (err e) = record { preserved = λ s inv. inv }
      kept key (ok ref) = record { preserved = λ s inv. inv }

      by_put :
          (put : Option (Text → ProjectionCommand → Result Text))
          → Preserves HasUnique (put_artifact put id command)
      by_put none = pure-Preserves none
      by_put (some put) = kept _ _

  project-Preserves : (id : Text) → Preserves HasUnique (project settings x id command)
  unfolding project
  project-Preserves id =
      search
        (
          preserves_rules, ensure_chat-Preserves, ensure_participants-Preserves, window-Preserves,
          facts-Preserves, signals-Preserves, tasks-Preserves, upsert-Preserves, audit-Preserves,
          mark-Preserves, artifact-Preserves,
        )
        depth 40

  transaction-Preserves :
      {A : Type 0} (m : Exec State A) → Preserves HasUnique m → Preserves HasUnique (transaction m)
  unfolding transaction
  transaction-Preserves {A = A} m keeps = record {
    preserved = λ s inv. ended (m s).0 (m s).1 s inv (keeps.preserved s inv);
  }
    where
      ended :
          (r : Result A) (s' s : State)
          → HasUnique s
          → HasUnique s'
          → HasUnique (end_transaction s.db r s').1
      ended (ok a) s' s before after = after
      ended (err e) s' s before after = before

  announce-Preserves : (p : Projection) → Preserves HasUnique (announce settings x command p)
  announce-Preserves p = record {
    preserved =
        λ s inv. rw (ap (λ (db : Db). db.interactions) (announce_db settings x command p s)) inv;
  }

  handle_projection-Preserves :
      (id : Text) → Preserves HasUnique (handle_projection settings x id command)
  unfolding handle_projection is_processed
  handle_projection-Preserves id =
      search (preserves_rules, transaction-Preserves, project-Preserves, announce-Preserves) depth
        12

module _ (settings : Settings) (x : Externals) where
  deliver-HasUnique :
      (entry : Entry) (s : State) → HasUnique s → HasUnique (deliver settings x entry s)
  unfolding deliver raise
  deliver-HasUnique entry s = of_payload entry.payload
    where
      of_payload :
          (payload : Result (Text × ProjectionCommand))
          → HasUnique s
          → HasUnique
              (process_payload settings x payload
                (record s { db = record s.db { clock = entry.handled_at } })).1
      of_payload (err e) inv = inv
      of_payload (ok (id, command)) inv =
          (handle_projection-Preserves settings x command id).preserved _ inv

  run_entries-HasUnique :
      (entries : List Entry) (s : State)
      → HasUnique s
      → HasUnique (run_entries settings x entries s)
  unfolding run_entries
  run_entries-HasUnique [] s inv = inv
  run_entries-HasUnique (entry ∷ entries) s inv =
      run_entries-HasUnique entries _ (deliver-HasUnique entry s inv)

  -- If no two interactions are of one chat and one start of a window, then this is so after any run of
  -- the loop, whatever the commands are and whatever the object store and the graph raise.
  pub run-HasUnique :
      (reads : List (Result (List Entry))) (s : State)
      → HasUnique s
      → HasUnique (run settings x reads s)
  unfolding run
  run-HasUnique [] s inv = inv
  run-HasUnique (err e ∷ reads) s inv = run-HasUnique reads s inv
  run-HasUnique (ok entries ∷ reads) s inv =
      run-HasUnique reads _ (run_entries-HasUnique entries s inv)
