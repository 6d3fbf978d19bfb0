-- ===== src/MemoryProjector/Consumer.antt =====
-- `_write_artifact`, `_handle_projection` and the loop of consumer.py. The object store and Neo4j may
-- raise, and so does the model of the embedding job; the SQL is taken not to fail. A failure within the
-- transaction takes it back, one behind it does not.
use personal_intelligence.Base.{
  ℕ, Bool, not, ◌&&◌, Option, none, some, List, [], ◌∷◌, ◌++◌, Text, text, is_empty, ℤ,
  if◌then◌else◌,
}
use personal_intelligence.Exec.{
  Error, invalid_payload, Result, ok, err, Exec, pure, raise, lift, gets, modify, ◌>>=◌, ◌>>◌,
}
use personal_intelligence.Contracts.{
  WindowMessagePayload, ProjectionCommand, InteractionUpdatedEvent,
}
use personal_intelligence.Store.Ledger
use personal_intelligence.MemoryProjector.Tables.{
  Db, Artifact, Published, embedding_requested, interaction_updated,
}
use personal_intelligence.MemoryProjector.Owner.{Settings}
use personal_intelligence.MemoryProjector.People.{
  ensure_chat, ensure_participants, keys_of, values_of,
}
use personal_intelligence.MemoryProjector.Windows.{
  last_of, window_of, upsert_analysis_window, replace_facts, replace_signals,
}
use personal_intelligence.MemoryProjector.Tasks.{sync_tasks}
use personal_intelligence.MemoryProjector.Interactions.{
  interaction_of, upsert_interaction, write_audit_log, build_embedding_job,
}
use personal_intelligence.MemoryProjector.Graph.{Graph, project_graph}

pub record State : Type 0 where
  pub db : Db
  pub artifacts : List Artifact
  pub graph : Graph
  pub published : List Published
  pub acked : List Text

-- The object store, where it is configured: the key of an object, or what `put_raw` raises; whether
-- there is a driver of Neo4j, and what a write of it raises.
pub record Externals : Type 0 where
  pub put_raw : Option (Text → ProjectionCommand → Result Text)
  pub has_driver : Bool
  pub graph_error : ProjectionCommand → Option Error

abbrev pub consumer_name : Text
consumer_name = text "memory-projector"

unfoldable pub on_db : {A : Type 0} → (Db → A × Db) → Exec State A
on_db f s = let (a, db') = f s.db in (ok a, record s { db = db' })

abbrev pub write_db : (Db → Db) → Exec State (Unit {0})
write_db f = modify (λ s. record s { db = f s.db })

unfoldable pub is_processed : Text → Exec State Bool
is_processed id = gets (λ s. Ledger.is_processed consumer_name id s.db.processed)

unfoldable pub mark_processed : Text → Db → Db
mark_processed id db = record db { processed = Ledger.mark_processed consumer_name id db.processed }

-- `async with conn.transaction()`: an exception takes the tables back, and nothing else.
abbrev pub end_transaction : {A : Type 0} → Db → Result A → State → Result A × State
end_transaction before (ok a) s = (ok a, s)
end_transaction before (err e) s = (err e, record s { db = before })

unfoldable pub transaction : {A : Type 0} → Exec State A → Exec State A
transaction m s = let (r, s') = m s in end_transaction s.db r s'

-- `command.messages[0]`, with the other messages
abbrev pub first_and_rest :
    List WindowMessagePayload → Result (WindowMessagePayload × List WindowMessagePayload)
first_and_rest [] = err (invalid_payload (text "list index out of range"))
first_and_rest (m ∷ ms) = ok (m, ms)

-- The object is stored where the call returns; whether a call that raised had stored it is left out.
abbrev pub keep_artifact : Text → ProjectionCommand → Result Text → Exec State (Option Text)
keep_artifact key command (err e) = raise e
keep_artifact key command (ok ref) = do
  modify λ s. record s { artifacts = s.artifacts ++ record { key = key; command = command } ∷ [] }
  pure (some ref)

abbrev pub artifact_key : Text → Text
artifact_key window_id = text "analysis-windows/" ++ window_id ++ text ".json"

abbrev pub put_artifact :
    Option (Text → ProjectionCommand → Result Text)
    → Text
    → ProjectionCommand
    → Exec State (Option Text)
put_artifact none window_id command = pure none
put_artifact (some put) window_id command =
    keep_artifact (artifact_key window_id) command (put (artifact_key window_id) command)

unfoldable pub write_artifact : Externals → Text → ProjectionCommand → Exec State (Option Text)
write_artifact x window_id command = put_artifact x.put_raw window_id command

-- What the transaction hands to the rest of the handler.
pub record Projection : Type 0 where
  pub chat_id : ℕ
  pub participants : List (ℤ × ℕ)
  pub task_ids : List ℕ
  pub interaction_id : ℕ
  pub first : WindowMessagePayload
  pub last : WindowMessagePayload

module _ (settings : Settings) (x : Externals) where
  unfoldable pub project : Text → ProjectionCommand → Exec State Projection
  project command_id command = do
    chat ← on_db (ensure_chat command)
    participants ← on_db (ensure_participants settings chat command)
    (first, rest) ← lift (first_and_rest command.messages)
    write_db
        (upsert_analysis_window (window_of chat (keys_of settings participants) command first rest))
    write_db (replace_facts command.source_window_id command)
    write_db (replace_signals command.source_window_id command)
    task_ids ← on_db (sync_tasks chat (values_of settings participants) command)
    object_ref ← write_artifact x command.source_window_id command
    fresh ← gets (λ s. s.db.next_id)
    id ← on_db (
        upsert_interaction (
          interaction_of fresh chat (values_of settings participants) task_ids command object_ref
            first (last_of first rest)))
    write_db (write_audit_log command)
    write_db (mark_processed command_id)
    pure (record {
      chat_id = chat;
      participants = participants;
      task_ids = task_ids;
      interaction_id = id;
      first = first;
      last = last_of first rest;
    })

  unfoldable pub publish : Published → Exec State (Unit {0})
  publish p = modify (λ s. record s { published = s.published ++ p ∷ [] })

  -- A write that raises is logged; without a password nothing is written.
  abbrev pub written_graph : ProjectionCommand → List (ℤ × ℕ) → Option Error → Graph → Graph
  written_graph command participants none g = project_graph command participants g
  written_graph command participants (some e) g = g

  unfoldable pub write_graph : ProjectionCommand → List (ℤ × ℕ) → Exec State (Unit {0})
  write_graph command participants =
      if x.has_driver && not (is_empty settings.neo4j_password)
      then modify (λ s. record s {
        graph = written_graph command participants (x.graph_error command) s.graph;
      })
      else pure tt

  abbrev pub updated_event : ProjectionCommand → Projection → InteractionUpdatedEvent
  updated_event command p = record {
    interaction_id = p.interaction_id;
    chat_id = p.chat_id;
    window_start = p.first.occurred_at;
    window_end = p.last.occurred_at;
    participants = values_of settings p.participants;
    topics = command.result.topics;
    sentiment = command.features.sentiment_hint;
    summary = command.result.summary;
    task_ids = p.task_ids;
    trace_id = command.trace_id;
  }

  unfoldable pub announce : ProjectionCommand → Projection → Exec State (Unit {0})
  announce command p = do
    write_graph command p.participants
    job ← lift (
        build_embedding_job settings command.source_window_id command
          (values_of settings p.participants))
    publish (embedding_requested job)
    publish (interaction_updated (updated_event command p))

  -- A command comes with the id that it carries.
  unfoldable pub handle_projection : Text → ProjectionCommand → Exec State (Unit {0})
  handle_projection command_id command = do
    seen ← is_processed command_id
    if seen then pure tt else do p ← transaction (project command_id command); announce command p

-- An entry of the stream, with the decoding of its payload and the time of its transaction.
pub record Entry : Type 0 where
  pub msg_id : Text
  pub payload : Result (Text × ProjectionCommand)
  pub handled_at : ℕ

module _ (settings : Settings) (x : Externals) where
  abbrev pub process_payload : Result (Text × ProjectionCommand) → Exec State (Unit {0})
  process_payload (err e) = raise e
  process_payload (ok (command_id, command)) = handle_projection settings x command_id command

  -- An exception is logged and dropped; `finally` acknowledges the entry.
  unfoldable pub deliver : Entry → State → State
  deliver entry s =
      let (result, after) =
        process_payload entry.payload
          (record s { db = record s.db { clock = entry.handled_at } }) in
      record after { acked = after.acked ++ entry.msg_id ∷ [] }

  unfoldable pub run_entries : List Entry → State → State
  unfolding deliver
  run_entries [] s = s
  run_entries (entry ∷ entries) s = run_entries entries (deliver entry s)

  unfoldable pub run : List (Result (List Entry)) → State → State
  unfolding run_entries
  run [] s = s
  run (err e ∷ reads) s = run reads s
  run (ok entries ∷ reads) s = run reads (run_entries entries s)
