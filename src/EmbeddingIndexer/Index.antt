-- ===== src/EmbeddingIndexer/Index.antt =====
-- The points behind the alias implement an index: a map from the id of a window to the last point that
-- could be made for it.
use personal_intelligence.Base.{
  ℕ, ◌≡◌, refl, sym, ◌∙◌, ap, Option, none, some, List, [], ◌∷◌, length, Text, text_eq, ◌==◌, ==_eq,
  eqb, Bool-cases, Option-cases, inl, inr, if◌then◌else◌,
}
use personal_intelligence.Exec.{Result, Result-cases, ok, err, raise, lift, gets, ◌>>=◌}
use personal_intelligence.Contracts.{EmbeddingJob}
use personal_intelligence.EmbeddingIndexer.Qdrant.{
  Point, Collection, Store, find_collection, find_alias, find_point, upsert_point, upsert_in,
  behind_alias, upsert,
}
use personal_intelligence.EmbeddingIndexer.Service.{
  Settings, Services, State, Entry, embed_text, point_of, on_store, index_job, process_payload,
  deliver, run_entries, run,
}

-- A map from ids to points
abbrev pub Index : Type 0 → Type 0
Index Number = Text → Option (Point Number)

module _ {Number : Type 0} where
  abbrev pub point_in : Text → Option (Collection Number) → Option (Point Number)
  point_in id none = none
  point_in id (some c) = find_point id c.points

  -- What the store holds behind an alias
  abbrev pub index_of : Text → Store Number → Index Number
  index_of alias_name q id = point_in id (behind_alias alias_name q)

  abbrev pub written : Option (Point Number) → Index Number → Index Number
  written none index id = index id
  written (some p) index id = if p.id == id then some p else index id

  -- The alias points to a collection of vectors of this size.
  pub record IsReady (alias_name : Text) (size : ℕ) (q : Store Number) : Type 0 where
    pub collection : Collection Number
    pub behind_it : behind_alias alias_name q ≡ some collection
    pub sized : collection.size ≡ size

  abbrev with_point : Point Number → Collection Number → Collection Number
  with_point p c = record c { points = upsert_point p c.points }

  abbrev with_point_in : Point Number → Option (Collection Number) → Option (Collection Number)
  with_point_in p none = none
  with_point_in p (some c) = some (with_point p c)

  abbrev name_or : Text → Option (Collection Number) → Text
  name_or name none = name
  name_or name (some c) = c.name

  find_point-upsert_point :
      (p : Point Number) (points : List (Point Number)) (id : Text)
      → find_point id (upsert_point p points)
        ≡ (if p.id == id then some p else find_point id points)
  unfolding find_point upsert_point
  find_point-upsert_point p [] id = refl
  find_point-upsert_point p (other ∷ points) id = elim (Bool-cases (other.id == p.id)) [
    | inl hit ↦ rw hit (elim (Bool-cases (p.id == id)) [
      | inl mine ↦ rw mine refl
      | inr away ↦ rw (==_eq other.id p.id hit, away) refl
    ])
    | inr miss ↦ rw miss (elim (Bool-cases (other.id == id)) [
      | inr away ↦ rw away (find_point-upsert_point p points id)
      | inl there ↦ rw there (elim (Bool-cases (p.id == id)) [
        | inr not_mine ↦ rw not_mine refl
        | inl mine ↦
            let same =
              (text_eq.decides other.id p.id).1
                (==_eq other.id id there ∙ sym (==_eq p.id id mine)) in
            absurd cc
      ])
    ])
  ]

  find_collection-name :
      (name : Text) (cs : List (Collection Number)) (c : Collection Number)
      → find_collection name cs ≡ some c
      → c.name ≡ name
  unfolding find_collection
  find_collection-name name [] c = λ h. absurd cc
  find_collection-name name (d ∷ cs) c = elim (Bool-cases (d.name == name)) [
    | inl hit ↦ rw hit (λ h.
        ap (λ (o : Option (Collection Number)). name_or name o) (sym h) ∙ ==_eq d.name name hit)
    | inr miss ↦ rw miss (find_collection-name name cs c)
  ]

  find_collection-upsert_in :
      (name : Text) (p : Point Number) (cs : List (Collection Number)) (c : Collection Number)
      → find_collection name cs ≡ some c
      → find_collection name (upsert_in name p cs) ≡ some (with_point p c)
  unfolding find_collection upsert_in
  find_collection-upsert_in name p [] c = λ h. absurd cc
  find_collection-upsert_in name p (d ∷ cs) c = elim (Bool-cases (d.name == name)) [
    | inl hit ↦ rw hit (rw hit (λ h. ap (λ o. with_point_in p o) h))
    | inr miss ↦ rw miss (rw miss (find_collection-upsert_in name p cs c))
  ]

  -- An upsert of a vector of the right size, through the alias
  upsert_behind :
      (alias_name : Text) (p : Point Number) (q : Store Number) (c : Collection Number)
      → behind_alias alias_name q ≡ some c
      → behind_alias alias_name (record q { collections = upsert_in c.name p q.collections })
        ≡ some (with_point p c)
  upsert_behind alias_name p q c = elim (Option-cases (find_alias alias_name q.aliases)) [
    | inl missing ↦ rw missing (λ h. absurd cc)
    | inr (name, pointed) ↦ rw pointed (λ h.
        ap (λ n. find_collection name (upsert_in n p q.collections))
          (find_collection-name name q.collections c h)
        ∙ find_collection-upsert_in name p q.collections c h)
  ]

module _ {Number : Type 0} (settings : Settings) (services : Services Number) (size : ℕ) where
  -- The point that a job makes, if its text gets a vector of this size
  abbrev pub point_of_vector : ℕ → EmbeddingJob → Result (List Number) → Option (Point Number)
  point_of_vector now job (err e) = none
  point_of_vector now job (ok vector) =
      if eqb (length vector) size then some (point_of settings services now job vector) else none

  abbrev pub point_of_payload : ℕ → Result EmbeddingJob → Option (Point Number)
  point_of_payload now (err e) = none
  point_of_payload now (ok job) =
      point_of_vector now job (embed_text settings services job.narrative_text job.profile_model)

  unfoldable pub index_entries : List Entry → Index Number → Index Number
  index_entries [] index = index
  index_entries (entry ∷ entries) index =
      index_entries entries (written (point_of_payload entry.handled_at entry.payload) index)

  -- The specification: what a run does to the map.
  unfoldable pub index_reads : List (Result (List Entry)) → Index Number → Index Number
  index_reads [] index = index
  index_reads (err e ∷ reads) index = index_reads reads index
  index_reads (ok entries ∷ reads) index = index_reads reads (index_entries entries index)

  -- The store is ready and holds what the map says.
  pub record Implements (index : Index Number) (q : Store Number) : Type 0 where
    pub ready : IsReady settings.qdrant_alias_name size q
    pub holds : (id : Text) → index_of settings.qdrant_alias_name q id ≡ index id

  upsert-Implements :
      (now : ℕ) (job : EmbeddingJob) (vector : List Number) (index : Index Number)
      (q : Store Number)
      → Implements index q
      → Implements
          (written (point_of_vector now job (ok vector)) index)
          (upsert settings.qdrant_alias_name (point_of settings services now job vector) q).1
  unfolding upsert
  upsert-Implements now job vector index q h =
      let p = point_of settings services now job vector in
      let c = h.ready.collection in
      let put = upsert_behind settings.qdrant_alias_name p q c h.ready.behind_it in
      rw (h.ready.behind_it, h.ready.sized)
        (elim (Bool-cases (eqb (length vector) size)) [
          | inr wrong ↦ rw wrong h
          | inl right ↦ rw right (record {
            ready = record { collection = with_point p c; behind_it = put; sized = h.ready.sized };
            holds = λ id.
                ap (point_in id) put
                ∙ (find_point-upsert_point p c.points id
                    ∙ ap (λ o. if p.id == id then some p else o)
                        (ap (point_in id) (sym h.ready.behind_it) ∙ h.holds id));
          })
        ])

  index_job-Implements :
      (job : EmbeddingJob) (index : Index Number) (s : State Number)
      → Implements index s.store
      → Implements
          (written (point_of_payload s.clock (ok job)) index)
          (index_job settings services job s).1.store
  unfolding index_job on_store lift gets ◌>>=◌
  index_job-Implements job index s h =
      elim (Result-cases (embed_text settings services job.narrative_text job.profile_model)) [
        | inl (e, failed) ↦ rw failed h
        | inr (vector, got) ↦ rw got (upsert-Implements s.clock job vector index s.store h)
      ]

  process_payload-Implements :
      (payload : Result EmbeddingJob) (index : Index Number) (s : State Number)
      → Implements index s.store
      → Implements
          (written (point_of_payload s.clock payload) index)
          (process_payload settings services payload s).1.store
  unfolding raise
  process_payload-Implements (err e) index s h = h
  process_payload-Implements (ok job) index s h = index_job-Implements job index s h

  run_entries-Implements :
      (entries : List Entry) (index : Index Number) (s : State Number)
      → Implements index s.store
      → Implements (index_entries entries index) (run_entries settings services entries s).store
  unfolding run_entries index_entries deliver
  run_entries-Implements [] index s h = h
  run_entries-Implements (entry ∷ entries) index s h =
      run_entries-Implements entries _ _
        (process_payload-Implements entry.payload index (record s { clock = entry.handled_at }) h)

  -- If the alias points to a collection of vectors of `size`, and what it holds is the map `index`, then
  -- after any reads it holds the map that the specification makes of `index`: for each window the point
  -- of its last job for which a vector of this size was given, and else what was there.
  pub run-Implements :
      (reads : List (Result (List Entry))) (index : Index Number) (s : State Number)
      → Implements index s.store
      → Implements (index_reads reads index) (run settings services reads s).store
  unfolding run index_reads
  run-Implements [] index s h = h
  run-Implements (err e ∷ reads) index s h = run-Implements reads index s h
  run-Implements (ok entries ∷ reads) index s h =
      run-Implements reads _ _ (run_entries-Implements entries index s h)
