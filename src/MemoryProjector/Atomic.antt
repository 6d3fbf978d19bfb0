-- ===== src/MemoryProjector/Atomic.antt =====
-- The transaction of `_handle_projection`: all of it or nothing, and once.
use personal_intelligence.Base.{
  ℕ, ◌≡◌, refl, ◌∙◌, ◌⊎◌, true, false, not, ◌&&◌, Option, none, some, List, Text, ℤ, is_empty,
  Bool-cases, inl, inr,
}
use personal_intelligence.Exec.{
  Error, Result, Result-cases, ok, err, pure, raise, lift, gets, modify, ◌>>=◌, ◌>>◌,
}
use personal_intelligence.Exec.Ensures.{Ensures, bind-Ensures}
use personal_intelligence.Exec.Leaves.{Leaves, leaves_rules, if-Leaves}
use personal_intelligence.Contracts.{ProjectionCommand}
use personal_intelligence.Store.Ledger
use personal_intelligence.MemoryProjector.Tables.{Db, Artifact, Published}
use personal_intelligence.MemoryProjector.Owner.{Settings}
use personal_intelligence.MemoryProjector.Interactions.{is_provider, build_embedding_job}
use personal_intelligence.MemoryProjector.Consumer.{
  State, Externals, Projection, consumer_name, on_db, write_db, is_processed, mark_processed,
  transaction, keep_artifact, put_artifact, write_artifact, project, publish, write_graph, announce,
  handle_projection,
}

-- A view of the state that reads neither the tables nor the object store.
pub record IsBeside {View : Type 0} (look : State → View) : Type 0 where
  pub db_free : (db : Db) (s : State) → look (record s { db = db }) ≡ look s
  pub artifact_free :
      (artifacts : List Artifact) (s : State) → look (record s { artifacts = artifacts }) ≡ look s

module _ {View : Type 0} {look : State → View} (beside : IsBeside look) where
  on_db-Leaves : {A : Type 0} (f : Db → A × Db) → Leaves look (on_db f)
  unfolding on_db
  on_db-Leaves f = record { unchanged = λ s. beside.db_free _ s }

  write_db-Leaves : (f : Db → Db) → Leaves look (write_db f)
  unfolding modify
  write_db-Leaves f = record { unchanged = λ s. beside.db_free _ s }

  keep_artifact-Leaves :
      (key : Text) (command : ProjectionCommand) (r : Result Text)
      → Leaves look (keep_artifact key command r)
  unfolding raise ◌>>=◌
  keep_artifact-Leaves key command (err e) = record { unchanged = λ s. refl }
  keep_artifact-Leaves key command (ok ref) = record { unchanged = λ s. beside.artifact_free _ s }

  put_artifact-Leaves :
      (put : Option (Text → ProjectionCommand → Result Text)) (id : Text)
      (command : ProjectionCommand)
      → Leaves look (put_artifact put id command)
  put_artifact-Leaves none id command = search leaves_rules
  put_artifact-Leaves (some put) id command = keep_artifact-Leaves _ command _

  write_artifact-Leaves :
      (x : Externals) (id : Text) (command : ProjectionCommand)
      → Leaves look (write_artifact x id command)
  unfolding write_artifact
  write_artifact-Leaves x id command = put_artifact-Leaves x.put_raw id command

  project-Leaves :
      (settings : Settings) (x : Externals) (id : Text) (command : ProjectionCommand)
      → Leaves look (project settings x id command)
  unfolding project
  project-Leaves settings x id command =
      search (leaves_rules, on_db-Leaves, write_db-Leaves, write_artifact-Leaves) depth 40

published-IsBeside : IsBeside (λ s. s.published)
published-IsBeside = record { db_free = λ db s. refl; artifact_free = λ artifacts s. refl }

graph-IsBeside : IsBeside (λ s. s.graph)
graph-IsBeside = record { db_free = λ db s. refl; artifact_free = λ artifacts s. refl }

-- What follows the transaction raises only where the setting is no provider, before it publishes.
announce_returns :
    (settings : Settings) (x : Externals) (command : ProjectionCommand) (p : Projection) (s : State)
    → is_provider settings.embedding_provider ≡ true
    → (announce settings x command p s).0 ≡ ok tt
unfolding announce write_graph publish pure lift modify build_embedding_job ◌>>=◌
announce_returns settings x command p s valid =
    elim (Bool-cases (x.has_driver && not (is_empty settings.neo4j_password))) [
      | inl there ↦ rw (there, valid) refl
      | inr away ↦ rw (away, valid) refl
    ]

announce_publishes_nothing :
    (settings : Settings) (x : Externals) (command : ProjectionCommand) (p : Projection) (s : State)
    → is_provider settings.embedding_provider ≡ false
    → (announce settings x command p s).1.published ≡ s.published
unfolding announce write_graph publish pure lift modify build_embedding_job ◌>>=◌
announce_publishes_nothing settings x command p s invalid =
    elim (Bool-cases (x.has_driver && not (is_empty settings.neo4j_password))) [
      | inl there ↦ rw (there, invalid) refl
      | inr away ↦ rw (away, invalid) refl
    ]

write_graph_db :
    (settings : Settings) (x : Externals) (command : ProjectionCommand) (ps : List (ℤ × ℕ))
    → Leaves (λ (s : State). s.db) (write_graph settings x command ps)
unfolding write_graph modify pure
write_graph_db settings x command ps =
    if-Leaves (x.has_driver && not (is_empty settings.neo4j_password)) _ _
      (record { unchanged = λ s. refl }) (record { unchanged = λ s. refl })

publish_db :
    (settings : Settings) (x : Externals) (event : Published)
    → Leaves (λ (s : State). s.db) (publish settings x event)
unfolding publish modify
publish_db settings x event = record { unchanged = λ s. refl }

announce-Leaves :
    (settings : Settings) (x : Externals) (command : ProjectionCommand) (p : Projection)
    → Leaves (λ (s : State). s.db) (announce settings x command p)
unfolding announce
announce-Leaves settings x command p = search (leaves_rules, write_graph_db, publish_db) depth 12

pub announce_db :
    (settings : Settings) (x : Externals) (command : ProjectionCommand) (p : Projection) (s : State)
    → (announce settings x command p s).1.db ≡ s.db
announce_db settings x command p s = (announce-Leaves settings x command p).unchanged s

returns_or_raises : (r : Result (Unit {0})) (e : Error) → r ≡ ok tt → r ≡ err e → ⊥
returns_or_raises r e returned raised = cc

-- The tables, the graph and the streams are as before.
pub record Untouched (before after : State) : Type 0 where
  pub same_db : after.db ≡ before.db
  pub same_graph : after.graph ≡ before.graph
  pub same_published : after.published ≡ before.published

module _ (settings : Settings) (x : Externals) (id : Text) (command : ProjectionCommand) where
  abbrev IsMarked : State → Type 0
  IsMarked s = Ledger.is_processed consumer_name id s.db.processed ≡ true

  mark-Ensures : (p : Projection) → Ensures IsMarked (write_db (mark_processed id) >> pure p)
  unfolding mark_processed modify pure ◌>>=◌
  mark-Ensures p = record {
    holds = λ s q h. Ledger.is_processed-mark_processed consumer_name id s.db.processed;
  }

  project-Ensures : Ensures IsMarked (project settings x id command)
  unfolding project
  project-Ensures = search (mark-Ensures, bind-Ensures) depth 40

  handle_projection_marks :
      (s : State)
      → (handle_projection settings x id command s).0 ≡ ok tt
      → IsMarked (handle_projection settings x id command s).1
  unfolding handle_projection is_processed transaction gets pure ◌>>=◌
  handle_projection_marks s =
      elim (Bool-cases (Ledger.is_processed consumer_name id s.db.processed)) [
        | inl seen ↦ rw seen (λ h. seen)
        | inr fresh ↦ rw fresh (elim (Result-cases (project settings x id command s).0) [
          | inl (e, failed) ↦ rw failed (λ h. absurd cc)
          | inr (p, done) ↦ rw done (λ h.
              rw (announce_db settings x command p (project settings x id command s).1)
                (project-Ensures.holds s p done))
        ])
      ]

  skips_marked : (s : State) → IsMarked s → handle_projection settings x id command s ≡ (ok tt, s)
  unfolding handle_projection is_processed gets pure ◌>>=◌
  skips_marked s marked = rw marked refl

  -- The projection was committed, and the setting is no provider: the command is marked, nothing is
  -- published, and a later delivery returns and changes nothing.
  pub record IsUnannounced (before after : State) : Type 0 where
    pub no_provider : is_provider settings.embedding_provider ≡ false
    pub is_marked : Ledger.is_processed consumer_name id after.db.processed ≡ true
    pub same_published : after.published ≡ before.published
    pub not_again : handle_projection settings x id command after ≡ (ok tt, after)

  committed_marks :
      (s : State) (p : Projection)
      → (project settings x id command s).0 ≡ ok p
      → IsMarked (announce settings x command p (project settings x id command s).1).1
  committed_marks s p done =
      rw (announce_db settings x command p (project settings x id command s).1)
        (project-Ensures.holds s p done)

  after_commit :
      (s : State) (p : Projection) (e : Error)
      → (project settings x id command s).0 ≡ ok p
      → (announce settings x command p (project settings x id command s).1).0 ≡ err e
      → IsUnannounced s (announce settings x command p (project settings x id command s).1).1
  after_commit s p e done failed =
      let middle = (project settings x id command s).1 in
      elim (Bool-cases (is_provider settings.embedding_provider)) [
        | inl valid ↦ absurd (
            returns_or_raises (announce settings x command p middle).0 e
              (announce_returns settings x command p middle valid) failed)
        | inr invalid ↦ record {
          no_provider = invalid;
          is_marked = committed_marks s p done;
          same_published =
              announce_publishes_nothing settings x command p middle invalid
              ∙ (project-Leaves published-IsBeside settings x id command).unchanged s;
          not_again = skips_marked _ (committed_marks s p done);
        }
      ]

  -- If the handler raises, wherever it does: either no table, no stream and not the graph has changed,
  -- the mark of the command included (an object that was stored stays); or it raised behind the
  -- transaction, which it does only where the setting `embedding_provider` is no provider of the job: then
  -- the command is marked, nothing is published, and a later delivery returns and changes nothing.
  pub handle_projection_fails :
      (s : State) (e : Error)
      → (handle_projection settings x id command s).0 ≡ err e
      → Untouched s (handle_projection settings x id command s).1
        ⊎ IsUnannounced s (handle_projection settings x id command s).1
  unfolding handle_projection is_processed transaction gets pure ◌>>=◌
  handle_projection_fails s e =
      elim (Bool-cases (Ledger.is_processed consumer_name id s.db.processed)) [
        | inl seen ↦ rw seen (λ h. absurd cc)
        | inr fresh ↦ rw fresh (elim (Result-cases (project settings x id command s).0) [
          | inl (e', failed) ↦ rw failed (λ h. inl (record {
            same_db = refl;
            same_graph = (project-Leaves graph-IsBeside settings x id command).unchanged s;
            same_published = (project-Leaves published-IsBeside settings x id command).unchanged s;
          }))
          | inr (p, done) ↦ rw done (λ h. inr (after_commit s p e done h))
        ])
      ]

  -- Once a delivery has returned, the next delivery of the command returns and changes nothing.
  pub handle_projection_twice :
      (s : State)
      → (handle_projection settings x id command s).0 ≡ ok tt
      → let after = (handle_projection settings x id command s).1 in
        handle_projection settings x id command after ≡ (ok tt, after)
  handle_projection_twice s h =
      skips_marked (handle_projection settings x id command s).1 (handle_projection_marks s h)
