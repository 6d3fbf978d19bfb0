-- ===== src/MemoryProjector/Interactions.antt =====
-- `_upsert_interaction`, `_write_audit_log` and `_build_embedding_job` of consumer.py.
use personal_intelligence.Base.{
  ℕ, ◌+◌, Bool, not, ◌||◌, Option, List, [], ◌∷◌, ◌++◌, map, keep_if, take, Text, text, text_eq,
  ◌==◌, strip, is_empty, join, if◌then◌else◌,
}
use personal_intelligence.Exec.{invalid_payload, Result, ok, err}
use personal_intelligence.Contracts.{
  WindowMessagePayload, StructuredClaim, ProjectionCommand, EmbeddingJob,
}
use personal_intelligence.Store.Interactions.{Interaction}
use personal_intelligence.Store.Interactions
use personal_intelligence.MemoryProjector.Tables.{Db}
use personal_intelligence.MemoryProjector.Owner.{Settings}
use personal_intelligence.MemoryProjector.People.{coalesce}

-- The row that a window makes, in a chat, with its participants, its tasks and its artifact.
abbrev pub interaction_of :
    ℕ
    → ℕ
    → List ℕ
    → List ℕ
    → ProjectionCommand
    → Option Text
    → WindowMessagePayload
    → WindowMessagePayload
    → Interaction
interaction_of fresh chat participants tasks command object_ref first last = record {
  id = fresh;
  chat_id = chat;
  window_start = first.occurred_at;
  window_end = last.occurred_at;
  participants = participants;
  topics = command.result.topics;
  sentiment = command.features.sentiment_hint;
  summary = command.result.summary;
  tasks = tasks;
  source_object_ref = object_ref;
}

abbrev pub refresh : Interaction → Interaction → Interaction
refresh new r = record r {
  window_end = new.window_end;
  participants = new.participants;
  topics = new.topics;
  sentiment = new.sentiment;
  summary = new.summary;
  tasks = new.tasks;
  source_object_ref = coalesce new.source_object_ref r.source_object_ref;
}

unfoldable pub upsert_interaction : Interaction → Db → ℕ × Db
upsert_interaction new db =
    let (id, rows) = Interactions.upsert_interaction (refresh new) new db.interactions in
    (id, record db { next_id = db.next_id + 1; interactions = rows })

unfoldable pub write_audit_log : ProjectionCommand → Db → Db
write_audit_log command db = record db {
  audits =
      db.audits
      ++ record {
        target = command.source_window_id;
        request_id = command.trace_id;
        tg_chat_id = command.tg_chat_id;
        source_event_id = command.source_event_id;
        topics = command.result.topics;
      }
        ∷ [];
}

abbrev pub topics_part : List Text → List Text
topics_part [] = []
topics_part (t ∷ ts) = (text "Темы: " ++ join (text ", ") (t ∷ ts)) ∷ []

abbrev pub facts_part : List StructuredClaim → List Text
facts_part [] = []
facts_part (c ∷ cs) =
    (text "Факты: " ++ join (text " ") (map (λ (c : StructuredClaim). c.claim) (take 6 (c ∷ cs))))
    ∷ []

unfoldable pub narrative_text : ProjectionCommand → Text
narrative_text command = join (10 ∷ []) (
    keep_if (λ part. not (is_empty (strip part)))
      (command.result.summary
        ∷ (topics_part command.result.topics ++ facts_part command.result.claims)))

-- `Literal["wormsoft", "polza"]` of the field `profile_provider`
abbrev pub is_provider : Text → Bool
is_provider t = t == text "wormsoft" || t == text "polza"

-- The setting is any text; the model of the job refuses those that are no provider.
unfoldable pub build_embedding_job :
    Settings → Text → ProjectionCommand → List ℕ → Result EmbeddingJob
build_embedding_job settings analysis_window_id command participant_ids =
    if is_provider settings.embedding_provider
    then ok (record {
      source_window_id = command.source_window_id;
      tg_chat_id = command.tg_chat_id;
      analysis_window_id = analysis_window_id;
      person_ids = participant_ids;
      topic_tags = command.result.topics;
      narrative_text = narrative_text command;
      profile_provider = settings.embedding_provider;
      profile_model = settings.embedding_model;
      profile_alias = settings.embedding_alias;
      trace_id = command.trace_id;
    })
    else err (invalid_payload (text "profile_provider"))
