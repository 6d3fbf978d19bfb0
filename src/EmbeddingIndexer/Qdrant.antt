-- ===== src/EmbeddingIndexer/Qdrant.antt =====
-- The part of the vector store that service.py uses: collections of points, and aliases of collections. A
-- point has the vector that was sent, which Qdrant normalises under the cosine distance, and an id that is
-- taken to be a UUID, as those of the orchestrator are.
use personal_intelligence.Base.{
  ℕ, not, Option, none, some, List, [], ◌∷◌, ◌++◌, length, Text, text, text_eq, ℤ, ◌==◌, eqb,
  keep_if, if◌then◌else◌,
}
use personal_intelligence.Exec.{Error, storage_failed, Result, ok, err}

-- The payload of a point, without its constants
pub record PointPayload : Type 0 where
  pub chat_id : ℤ
  pub person_ids : List ℕ
  pub topic_tags : List Text
  pub ts_from : ℕ
  pub ts_to : ℕ
  pub embedding_profile : Text
  pub analysis_window_id : Text
  pub source_window_id : Text
  pub narrative_text : Text

pub record Point (Number : Type 0) : Type 0 where
  pub id : Text
  pub vector : List Number
  pub payload : PointPayload

pub record Collection (Number : Type 0) : Type 0 where
  pub name : Text
  pub size : ℕ
  pub points : List (Point Number)

pub record Alias : Type 0 where
  pub alias_name : Text
  pub collection_name : Text

pub record Store (Number : Type 0) : Type 0 where
  pub collections : List (Collection Number)
  pub aliases : List Alias

unfoldable pub find_alias : Text → List Alias → Option Text
find_alias name [] = none
find_alias name (a ∷ aliases) =
    let rest = find_alias name aliases in
    if a.alias_name == name then some a.collection_name else rest

abbrev pub delete_alias : Text → List Alias → List Alias
delete_alias name aliases = keep_if (λ (a : Alias). not (a.alias_name == name)) aliases

abbrev pub create_alias : Text → Text → List Alias → List Alias
create_alias name collection aliases =
    aliases ++ record { alias_name = name; collection_name = collection } ∷ []

abbrev pub missing_collection : Error
missing_collection = storage_failed (text "collection not found")

abbrev pub wrong_size : Error
wrong_size = storage_failed (text "vector dimension error")

module _ {Number : Type 0} where
  unfoldable pub find_collection : Text → List (Collection Number) → Option (Collection Number)
  find_collection name [] = none
  find_collection name (c ∷ cs) =
      let rest = find_collection name cs in if c.name == name then some c else rest

  unfoldable pub create_collection : Text → ℕ → Store Number → Store Number
  create_collection name size q = record q {
    collections = q.collections ++ record { name = name; size = size; points = [] } ∷ [];
  }

  -- A point of the same id is replaced.
  unfoldable pub upsert_point : Point Number → List (Point Number) → List (Point Number)
  upsert_point p [] = p ∷ []
  upsert_point p (other ∷ points) =
      let rest = upsert_point p points in if other.id == p.id then p ∷ points else other ∷ rest

  unfoldable pub find_point : Text → List (Point Number) → Option (Point Number)
  find_point id [] = none
  find_point id (p ∷ points) =
      let rest = find_point id points in if p.id == id then some p else rest

  unfoldable pub upsert_in :
      Text → Point Number → List (Collection Number) → List (Collection Number)
  upsert_in name p [] = []
  upsert_in name p (c ∷ cs) =
      let rest = upsert_in name p cs in
      if c.name == name then record c { points = upsert_point p c.points } ∷ cs else c ∷ rest

  -- The collection behind an alias
  abbrev pub behind : Option Text → List (Collection Number) → Option (Collection Number)
  behind none collections = none
  behind (some name) collections = find_collection name collections

  abbrev pub behind_alias : Text → Store Number → Option (Collection Number)
  behind_alias alias_name q = behind (find_alias alias_name q.aliases) q.collections

  -- An upsert by an alias: the collection must be there, with vectors of this size.
  abbrev pub upsert_found :
      Point Number → Option (Collection Number) → Store Number → Result (Unit {0}) × Store Number
  upsert_found p none q = (err missing_collection, q)
  upsert_found p (some c) q =
      if eqb (length p.vector) c.size
      then (ok tt, record q { collections = upsert_in c.name p q.collections })
      else (err wrong_size, q)

  unfoldable pub upsert : Text → Point Number → Store Number → Result (Unit {0}) × Store Number
  upsert alias_name p q = upsert_found p (behind_alias alias_name q) q
