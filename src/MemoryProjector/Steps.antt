-- ===== src/MemoryProjector/Steps.antt =====
-- The steps of a projection as they are seen by a part of the tables that they do not write.
use personal_intelligence.Base.{
  ℕ, ◌≡◌, refl, ◌∙◌, Option, none, some, List, [], ◌∷◌, Text, ℤ, int_eq, elem, Bool-cases, inl, inr,
}
use personal_intelligence.Exec.{Result, ok, err, raise, modify, ◌>>=◌}
use personal_intelligence.Exec.Leaves.{Leaves, leaves_rules}
use personal_intelligence.Contracts.{StructuredTask, WindowMessagePayload, ProjectionCommand}
use personal_intelligence.Store.Ledger.{Ledger}
use personal_intelligence.Store.Interactions.{Interaction}
use personal_intelligence.MemoryProjector.Tables.{Db, Chat, Person, Membership, Window, Task, Audit}
use personal_intelligence.MemoryProjector.Owner.{Settings}
use personal_intelligence.MemoryProjector.People.{
  ensure_chat, ensure_person, add_sender, add_senders, ensure_participants, keys_of,
}
use personal_intelligence.MemoryProjector.Windows.{upsert_analysis_window}
use personal_intelligence.MemoryProjector.Tasks.{
  sync_found, sync_task, sync_all, sync_tasks, find_task_for_evidence, evidence_id,
}
use personal_intelligence.MemoryProjector.Interactions.{upsert_interaction, write_audit_log}
use personal_intelligence.MemoryProjector.Consumer.{
  State, Externals, mark_processed, on_db, write_db, keep_artifact, put_artifact, write_artifact,
}

-- A part of the tables that holds none of those that are named here.
pub record IsAside {View : Type 0} (look : Db → View) : Type 0 where
  pub chats_free :
      (n : ℕ) (rows : List Chat) (db : Db)
      → look (record db { next_id = n; chats = rows }) ≡ look db
  pub persons_free :
      (n : ℕ) (rows : List Person) (members : List Membership) (db : Db)
      → look (record db { next_id = n; persons = rows; memberships = members }) ≡ look db
  pub windows_free : (rows : List Window) (db : Db) → look (record db { windows = rows }) ≡ look db
  pub tasks_free :
      (n : ℕ) (rows : List Task) (db : Db)
      → look (record db { next_id = n; tasks = rows }) ≡ look db
  pub interactions_free :
      (n : ℕ) (rows : List Interaction) (db : Db)
      → look (record db { next_id = n; interactions = rows }) ≡ look db
  pub audits_free : (rows : List Audit) (db : Db) → look (record db { audits = rows }) ≡ look db
  pub processed_free :
      (ledger : Ledger) (db : Db) → look (record db { processed = ledger }) ≡ look db

module _ {View : Type 0} (look : Db → View) where
  abbrev pub in_db : State → View
  in_db s = look s.db

  pub on_db_same :
      {A : Type 0} (f : Db → A × Db)
      → ((db : Db) → look (f db).1 ≡ look db)
      → Leaves in_db (on_db f)
  unfolding on_db
  on_db_same f same = record { unchanged = λ s. same s.db }

  pub write_db_same :
      (f : Db → Db) → ((db : Db) → look (f db) ≡ look db) → Leaves in_db (write_db f)
  unfolding modify
  write_db_same f same = record { unchanged = λ s. same s.db }

module _ {View : Type 0} {look : Db → View} (aside : IsAside look) where
  add_sender_same :
      (settings : Settings) (chat : ℕ) (topics : List Text) (m : WindowMessagePayload)
      (sender : Option ℤ) (ps : List (ℤ × ℕ)) (db : Db)
      → look (add_sender settings chat topics m sender ps db).1 ≡ look db
  unfolding ensure_person
  add_sender_same settings chat topics m none ps db = refl
  add_sender_same settings chat topics m (some user) ps db =
      elim (Bool-cases (elem user (keys_of settings ps))) [
        | inl known ↦ rw known refl
        | inr new ↦ rw new (aside.persons_free _ _ _ db)
      ]

  add_senders_same :
      (settings : Settings) (chat : ℕ) (topics : List Text) (ms : List WindowMessagePayload)
      (ps : List (ℤ × ℕ)) (db : Db)
      → look (add_senders settings chat topics ms ps db).1 ≡ look db
  unfolding add_senders
  add_senders_same settings chat topics [] ps db = refl
  add_senders_same settings chat topics (m ∷ ms) ps db =
      let (ps', db') = add_sender settings chat topics m m.tg_sender_id ps db in
      add_senders_same settings chat topics ms ps' db'
      ∙ add_sender_same settings chat topics m m.tg_sender_id ps db

  sync_found_same :
      (chat : ℕ) (owner counterpart : Option ℕ) (task : StructuredTask) (found : Option Task)
      (db : Db)
      → look (sync_found chat owner counterpart task found db).1 ≡ look db
  sync_found_same chat owner counterpart task none db = aside.tasks_free _ _ db
  sync_found_same chat owner counterpart task (some t) db = aside.tasks_free db.next_id _ db

  sync_all_same :
      (chat : ℕ) (owner counterpart : Option ℕ) (tasks : List StructuredTask) (db : Db)
      → look (sync_all chat owner counterpart tasks db).1 ≡ look db
  unfolding sync_all sync_task
  sync_all_same chat owner counterpart [] db = refl
  sync_all_same chat owner counterpart (task ∷ tasks) db =
      let found = find_task_for_evidence chat (evidence_id task) db.tasks in
      sync_all_same chat owner counterpart tasks (sync_found chat owner counterpart task found db).1
      ∙ sync_found_same chat owner counterpart task found db

  pub ensure_chat-Leaves :
      (command : ProjectionCommand) → Leaves (in_db look) (on_db (ensure_chat command))
  unfolding ensure_chat
  ensure_chat-Leaves command = on_db_same look (ensure_chat command) (λ db. aside.chats_free _ _ db)

  pub ensure_participants-Leaves :
      (settings : Settings) (chat : ℕ) (command : ProjectionCommand)
      → Leaves (in_db look) (on_db (ensure_participants settings chat command))
  unfolding ensure_participants
  ensure_participants-Leaves settings chat command =
      on_db_same look (ensure_participants settings chat command)
        (λ db. add_senders_same settings chat _ command.messages [] db)

  pub window-Leaves : (w : Window) → Leaves (in_db look) (write_db (upsert_analysis_window w))
  unfolding upsert_analysis_window
  window-Leaves w = write_db_same look (upsert_analysis_window w) (λ db. aside.windows_free _ db)

  pub sync_tasks-Leaves :
      (chat : ℕ) (ids : List ℕ) (command : ProjectionCommand)
      → Leaves (in_db look) (on_db (sync_tasks chat ids command))
  unfolding sync_tasks
  sync_tasks-Leaves chat ids command =
      on_db_same look (sync_tasks chat ids command)
        (λ db. sync_all_same chat _ _ command.result.tasks db)

  pub upsert_interaction-Leaves :
      (new : Interaction) → Leaves (in_db look) (on_db (upsert_interaction new))
  unfolding upsert_interaction
  upsert_interaction-Leaves new =
      on_db_same look (upsert_interaction new) (λ db. aside.interactions_free _ _ db)

  pub write_audit_log-Leaves :
      (command : ProjectionCommand) → Leaves (in_db look) (write_db (write_audit_log command))
  unfolding write_audit_log
  write_audit_log-Leaves command =
      write_db_same look (write_audit_log command) (λ db. aside.audits_free _ db)

  pub mark_processed-Leaves : (id : Text) → Leaves (in_db look) (write_db (mark_processed id))
  unfolding mark_processed
  mark_processed-Leaves id =
      write_db_same look (mark_processed id) (λ db. aside.processed_free _ db)

  keep_artifact-Leaves :
      (key : Text) (command : ProjectionCommand) (r : Result Text)
      → Leaves (in_db look) (keep_artifact key command r)
  unfolding raise ◌>>=◌
  keep_artifact-Leaves key command (err e) = record { unchanged = λ s. refl }
  keep_artifact-Leaves key command (ok ref) = record { unchanged = λ s. refl }

  put_artifact-Leaves :
      (put : Option (Text → ProjectionCommand → Result Text)) (id : Text)
      (command : ProjectionCommand)
      → Leaves (in_db look) (put_artifact put id command)
  put_artifact-Leaves none id command = search leaves_rules
  put_artifact-Leaves (some put) id command = keep_artifact-Leaves _ command _

  pub write_artifact-Leaves :
      (x : Externals) (id : Text) (command : ProjectionCommand)
      → Leaves (in_db look) (write_artifact x id command)
  unfolding write_artifact
  write_artifact-Leaves x id command = put_artifact-Leaves x.put_raw id command
