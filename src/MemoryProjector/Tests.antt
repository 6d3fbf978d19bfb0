-- ===== src/MemoryProjector/Tests.antt =====
-- A projection of a small analysis, and the theorems at concrete inputs.
use personal_intelligence.Base.{
  ◌⊎◌, ℤ, elem, ◌+◌, ◌≡◌, refl, false, none, some, List, [], ◌∷◌, map, Text, text, length, text_eq,
  ◌==◌, pos, int_eq, same_int, same_text, strip, sort_ints, split_on, AreDistinct, lstrip_by,
  if◌then◌else◌,
}
use personal_intelligence.Exec.{invalid_payload, ok, err, pure, raise, lift, gets, modify, ◌>>=◌}
use personal_intelligence.Contracts.{
  private, WindowMessagePayload, neutral, rolling, StructuredClaim, fact, StructuredTask,
  ProjectionCommand,
}
use personal_intelligence.Store.Ledger
use personal_intelligence.Store.Interactions
use personal_intelligence.MemoryProjector.Tables.{Fact, Signal, empty_db}
use personal_intelligence.MemoryProjector.Owner.{
  Settings, matches_owner_identity, owner_tg_user_id_set, owner_username_set,
  owner_display_name_set,
}
use personal_intelligence.MemoryProjector.People.{
  ensure_chat, first_name, upsert_chat, ensure_person, upsert_person, add_membership, add_senders,
  ensure_participants, keys_of,
}
use personal_intelligence.MemoryProjector.Windows.{
  fact_of, upsert_analysis_window, upsert_window, replace_facts, replace_signals,
}
use personal_intelligence.MemoryProjector.Tasks.{
  find_task_for_evidence, sync_task, sync_all, sync_tasks, latest_owner, update_id,
}
use personal_intelligence.MemoryProjector.Interactions.{
  upsert_interaction, write_audit_log, build_embedding_job,
}
use personal_intelligence.MemoryProjector.Graph.{empty_graph}
use personal_intelligence.MemoryProjector.Consumer.{
  State, Externals, Entry, is_processed, on_db, mark_processed, transaction, write_artifact,
  project, publish, write_graph, announce, handle_projection, run,
}
use personal_intelligence.MemoryProjector.Atomic.{
  Untouched, IsUnannounced, handle_projection_fails, handle_projection_twice,
}
use personal_intelligence.MemoryProjector.Rows.{rows_of, handle_projection_replaces}
use personal_intelligence.MemoryProjector.Unique.{HasUnique, run-HasUnique}
use personal_intelligence.MemoryProjector.Merging.{shared_evidence_merges}
use personal_intelligence.MemoryProjector.Participants.{has_sent, ensure_participants_lem}

abbrev settings : Settings
settings = record {
  owner_tg_user_ids = text "100";
  owner_usernames = [];
  owner_display_names = [];
  owner_primary_display_name = [];
  embedding_provider = text "wormsoft";
  embedding_model = text "m";
  embedding_alias = text "a";
  neo4j_password = [];
  casefold = λ t. t;
  parse_int = λ t. none;
}

abbrev externals : Externals
externals = record { put_raw = none; has_driver = false; graph_error = λ command. none }

abbrev message : WindowMessagePayload
message = record {
  tg_message_id = pos 1;
  tg_sender_id = some (pos 100);
  tg_sender_name = some (text "Anna");
  tg_sender_username = none;
  content = text "hi";
  reply_to_message_id = none;
  media_type = none;
  is_forwarded = false;
  occurred_at = 5;
}

abbrev task : Text → StructuredTask
task title = record {
  title = title;
  description = none;
  priority = 2;
  due_at = none;
  confidence = 500;
  evidence_message_ids = [];
  caveats = [];
}

abbrev claim : StructuredClaim
claim = record {
  kind = fact;
  subject = none;
  predicate = text "likes";
  object = none;
  claim = text "likes tea";
  confidence = 500;
  evidence_message_ids = [];
  caveats = [];
}

abbrev command_of : List WindowMessagePayload → ProjectionCommand
command_of messages = record {
  source_window_id = text "w1";
  source_event_id = text "e1";
  tg_chat_id = pos 7;
  messages = messages;
  features = record {
    chat_type = private;
    message_count = 1;
    participant_count = 1;
    participant_tg_ids = [];
    author_activity = [];
    mention_handles = [];
    links = [];
    emails = [];
    phones = [];
    keyword_candidates = [];
    sentiment_hint = neutral;
    attachment_count = 0;
    forwarded_count = 0;
    reply_count = 0;
    median_response_latency_sec = none;
    window_kind = rolling;
  };
  result = record {
    source_window_id = text "w1";
    summary = text "ok";
    topics = text "tea" ∷ [];
    participants = [];
    claims = claim ∷ [];
    tasks = task (text "buy tea") ∷ task (text "buy cake") ∷ [];
    analytics_signals = [];
    confidence = 500;
    caveats = [];
  };
  trace_id = none;
}

abbrev start : State
start = record { db = empty_db; artifacts = []; graph = empty_graph; published = []; acked = [] }

program : Unit {0}
unfolding build_embedding_job handle_projection is_processed transaction project announce publish
    write_graph on_db mark_processed write_artifact ensure_chat first_name upsert_chat
    ensure_participants add_senders ensure_person upsert_person add_membership
    matches_owner_identity owner_tg_user_id_set owner_username_set owner_display_name_set
    upsert_analysis_window upsert_window replace_facts replace_signals sync_tasks sync_all sync_task
    find_task_for_evidence latest_owner update_id upsert_interaction write_audit_log
    Interactions.upsert_interaction pure raise lift gets modify ◌>>=◌ Ledger.is_processed
    Ledger.mark_processed same_int same_text strip split_on lstrip_by sort_ints
program = tt

-- Two tasks without evidence are one row.
two_tasks_one_row :
    length
      (handle_projection settings externals
        (text "c1")
        (command_of (message ∷ []))
        start).1.db.tasks
    ≡ 1
unfolding program
two_tasks_one_row = refl

-- A command without messages raises within the transaction.
handle_projection_fails_example :
    Untouched start (handle_projection settings externals (text "c1") (command_of []) start).1
    ⊎ IsUnannounced settings externals
        (text "c1")
        (command_of [])
        start
        (handle_projection settings externals (text "c1") (command_of []) start).1
unfolding program
handle_projection_fails_example =
    handle_projection_fails settings externals (text "c1") (command_of []) start
      (invalid_payload (text "list index out of range")) refl

-- A setting that is no provider raises behind it: the tasks are written and nothing is published.
abbrev misset : Settings
misset = record settings { embedding_provider = text "openai" }

raises_after_commit :
    let (r, after) =
      handle_projection misset externals (text "c1") (command_of (message ∷ [])) start in
    (r ≡ err (invalid_payload (text "profile_provider")))
    × ((length after.db.tasks ≡ 1) × (after.published ≡ []))
unfolding program
raises_after_commit = (refl, (refl, refl))

handle_projection_twice_example :
    let after =
      (handle_projection settings externals (text "c1") (command_of (message ∷ [])) start).1 in
    handle_projection settings externals (text "c1") (command_of (message ∷ [])) after
    ≡ (ok tt, after)
unfolding program
handle_projection_twice_example =
    handle_projection_twice settings externals (text "c1") (command_of (message ∷ [])) start refl

handle_projection_replaces_example :
    let after =
      (handle_projection settings externals (text "c1") (command_of (message ∷ [])) start).1.db in
    (rows_of (λ (f : Fact). f.window_id) (text "w1") after.facts
      ≡ (if text "w1" == text "w1" then map (fact_of (text "w1")) (claim ∷ []) else []))
    × (rows_of (λ (g : Signal). g.window_id) (text "w1") after.signals
        ≡ (if text "w1" == text "w1" then [] else []))
unfolding program
handle_projection_replaces_example =
    handle_projection_replaces settings externals (text "c1") (command_of (message ∷ [])) start
      (text "w1") refl refl

abbrev entry : Entry
entry = record {
  msg_id = text "1-0";
  payload = ok (text "c1", command_of (message ∷ []));
  handled_at = 9;
}

run-HasUnique_example : HasUnique (run settings externals (ok (entry ∷ []) ∷ []) start)
run-HasUnique_example = run-HasUnique settings externals (ok (entry ∷ []) ∷ []) start tt

shared_evidence_merges_example :
    let (ids, after) =
      sync_all 1 none none (task (text "buy tea") ∷ task (text "buy cake") ∷ []) empty_db in
    (ids ≡ 1 ∷ 1 ∷ []) × (length after.tasks ≡ 0 + 1)
unfolding find_task_for_evidence
shared_evidence_merges_example =
    shared_evidence_merges 1 none none (task (text "buy tea")) (task (text "buy cake")) empty_db
      refl refl

ensure_participants_lem_example :
    let participants =
      keys_of settings
        (ensure_participants settings 1 (command_of (message ∷ message ∷ [])) empty_db).0 in
    AreDistinct participants
    × ((user : ℤ) → elem user participants ≡ has_sent user (message ∷ message ∷ []))
ensure_participants_lem_example =
    ensure_participants_lem settings 1 (command_of (message ∷ message ∷ [])) empty_db
