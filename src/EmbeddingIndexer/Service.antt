-- ===== src/EmbeddingIndexer/Service.antt =====
-- `_collection_name`, `ensure_collection`, `_payload` and the loop of service.py.
use personal_intelligence.Base.{
  ℕ, Bool, false, not, ◌&&◌, ◌||◌, Option, none, some, List, [], ◌∷◌, ◌++◌, length, Text, text,
  text_eq, ◌==◌, eqb, leb, lstrip_by, rstrip_by, show_nat, if◌then◌else◌,
}
use personal_intelligence.Exec.{Result, ok, err, Exec, raise, lift, gets, ◌>>=◌}
use personal_intelligence.Contracts.{EmbeddingJob}
use personal_intelligence.EmbeddingIndexer.Vectors.{Json, embed}
use personal_intelligence.EmbeddingIndexer.Qdrant.{
  PointPayload, Point, Collection, Store, find_collection, create_collection, find_alias,
  delete_alias, create_alias, upsert,
}

abbrev pub is_slug_char : ℕ → Bool
is_slug_char c = (leb 97 c && leb c 122) || (leb 48 c && leb c 57)

-- `re.sub(r"[^a-z0-9]+", "-", s)`, after a replaced character or not
unfoldable pub dashed : Bool → Text → Text
dashed replaced [] = []
dashed replaced (c ∷ s) =
    let rest = dashed (not (is_slug_char c)) s in
    if is_slug_char c then c ∷ rest else (if replaced then rest else 45 ∷ rest)

abbrev pub is_dash : ℕ → Bool
is_dash c = eqb c 45

unfoldable pub collection_name : (Text → Text) → Text → Text → ℕ → Text
unfolding dashed
collection_name casefold alias_name model_name dimension =
    let slug = rstrip_by is_dash (lstrip_by is_dash (dashed false (casefold model_name))) in
    alias_name ++ text "_" ++ slug ++ text "_" ++ show_nat dimension ++ text "_v1"

module _ {Number : Type 0} where
  abbrev pub ensure_there : Option (Collection Number) → Text → ℕ → Store Number → Store Number
  ensure_there none name dimension q = create_collection name dimension q
  ensure_there (some c) name dimension q = q

  abbrev pub point_alias : Option Text → Text → Text → Store Number → Store Number
  point_alias none alias_name name q = record q { aliases = create_alias alias_name name q.aliases }
  point_alias (some old) alias_name name q =
      if old == name
      then q
      else record q { aliases = create_alias alias_name name (delete_alias alias_name q.aliases) }

  -- The collection `name` is there, and the alias points to it.
  unfoldable pub ensure_named : Text → Text → ℕ → Store Number → Store Number
  ensure_named alias_name name dimension q =
      let there = ensure_there (find_collection name q.collections) name dimension q in
      point_alias (find_alias alias_name there.aliases) alias_name name there

  unfoldable pub ensure_collection :
      (Text → Text) → Text → Text → ℕ → Store Number → Text × Store Number
  ensure_collection casefold alias_name model_name dimension q =
      let name = collection_name casefold alias_name model_name dimension in
      (name, ensure_named alias_name name dimension q)

pub record Settings : Type 0 where
  pub qdrant_alias_name : Text
  pub wormsoft_embedding_model : Text

pub record Services (Number : Type 0) : Type 0 where
  pub to_float : Json → Result Number
  pub post : Text → Text → Result Json
  pub casefold : Text → Text

pub record State (Number : Type 0) : Type 0 where
  pub clock : ℕ
  pub store : Store Number
  pub acked : List Text

unfoldable pub payload_of : ℕ → EmbeddingJob → PointPayload
payload_of now job = record {
  chat_id = job.tg_chat_id;
  person_ids = job.person_ids;
  topic_tags = job.topic_tags;
  ts_from = now;
  ts_to = now;
  embedding_profile = job.profile_provider ++ text ":" ++ job.profile_model;
  analysis_window_id = job.analysis_window_id;
  source_window_id = job.source_window_id;
  narrative_text = job.narrative_text;
}

-- An entry of the stream, with the decoding of its payload and the time at which it is handled.
pub record Entry : Type 0 where
  pub msg_id : Text
  pub payload : Result EmbeddingJob
  pub handled_at : ℕ

module _ {Number : Type 0} (settings : Settings) (services : Services Number) where
  abbrev pub embed_text : Text → Text → Result (List Number)
  embed_text content model =
      embed services.to_float services.post settings.wormsoft_embedding_model content model

  abbrev pub point_of : ℕ → EmbeddingJob → List Number → Point Number
  point_of now job vector = record {
    id = job.analysis_window_id;
    vector = vector;
    payload = payload_of now job;
  }

  unfoldable pub on_store :
      {A : Type 0} → (Store Number → Result A × Store Number) → Exec (State Number) A
  on_store f s = let (r, store) = f s.store in (r, record s { store = store })

  -- The start of `run`: the size of the vectors is that of a probe.
  unfoldable pub start : Exec (State Number) Text
  start = do
    probe ← lift (embed_text (text "PIL embedding capability probe.") [])
    on_store (λ q.
        let (name, q') =
          ensure_collection services.casefold settings.qdrant_alias_name
            settings.wormsoft_embedding_model (length probe) q in
        (ok name, q'))

  unfoldable pub index_job : EmbeddingJob → Exec (State Number) (Unit {0})
  index_job job = do
    vector ← lift (embed_text job.narrative_text job.profile_model)
    now ← gets (λ s. s.clock)
    on_store (upsert settings.qdrant_alias_name (point_of now job vector))

  abbrev pub process_payload : Result EmbeddingJob → Exec (State Number) (Unit {0})
  process_payload (err e) = raise e
  process_payload (ok job) = index_job job

  unfoldable pub deliver : Entry → State Number → State Number
  deliver entry s =
      let (result, after) = process_payload entry.payload (record s { clock = entry.handled_at }) in
      record after { acked = after.acked ++ entry.msg_id ∷ [] }

  unfoldable pub run_entries : List Entry → State Number → State Number
  unfolding deliver
  run_entries [] s = s
  run_entries (entry ∷ entries) s = run_entries entries (deliver entry s)

  -- The loop after the start
  unfoldable pub run : List (Result (List Entry)) → State Number → State Number
  unfolding run_entries
  run [] s = s
  run (err e ∷ reads) s = run reads s
  run (ok entries ∷ reads) s = run reads (run_entries entries s)
