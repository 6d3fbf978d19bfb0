-- ===== src/EmbeddingIndexer/Vectors.antt =====
-- `_extract_embedding_vector` and `WormsoftEmbeddingClient.embed` of service.py. The HTTP call and
-- `float` of a JSON value are parameters.
use personal_intelligence.Base.{
  Option, none, some, List, [], ◌∷◌, Text, text, text_eq, ◌==◌, is_empty, if◌then◌else◌,
}
use personal_intelligence.Exec.{Error, analysis_failed, Result, ok, err}

-- What `response.json()` gives: dicts, lists, and all else by its text.
mutual
  pub data Json : Type 0 where
    dict : Fields → Json
    list : Items → Json
    scalar : Text → Json

  pub data Items : Type 0 where
    no_item : Items
    item : Json → Items → Items

  pub data Fields : Type 0 where
    no_field : Fields
    field : Text → Json → Fields → Fields

unfoldable pub get : Text → Fields → Option Json
get key no_field = none
get key (field name value fields) =
    let rest = get key fields in if name == key then some value else rest

abbrev pub as_dict : Json → Option Fields
as_dict (dict fields) = some fields
as_dict (list items) = none
as_dict (scalar t) = none

-- `x if isinstance(x, list)`, for the value of a key
abbrev pub as_list : Option Json → Option Items
as_list none = none
as_list (some (dict fields)) = none
as_list (some (list items)) = some items
as_list (some (scalar t)) = none

abbrev pub first_item : Items → Option Json
first_item no_item = none
first_item (item value items) = some value

abbrev pub unsupported : Error
unsupported = analysis_failed (text "unsupported_embedding_payload")

module _ {Number : Type 0} (to_float : Json → Result Number) where
  abbrev pub onto_floats : Result Number → Result (List Number) → Result (List Number)
  onto_floats (err e) rest = err e
  onto_floats (ok number) (err e) = err e
  onto_floats (ok number) (ok numbers) = ok (number ∷ numbers)

  unfoldable pub floats : Items → Result (List Number)
  floats no_item = ok []
  floats (item value items) = onto_floats (to_float value) (floats items)

  abbrev pub floats_or : Option Items → Result (List Number) → Result (List Number)
  floats_or (some items) otherwise = floats items
  floats_or none otherwise = otherwise

  abbrev pub from_dict : Option Fields → Result (List Number)
  from_dict none = err unsupported
  from_dict (some fields) = floats_or (as_list (get (text "embedding") fields)) (err unsupported)

  abbrev pub from_first : Option Json → Result (List Number)
  from_first none = err unsupported
  from_first (some value) = from_dict (as_dict value)

  abbrev pub from_data : Option Items → Result (List Number)
  from_data none = err unsupported
  from_data (some items) = from_first (first_item items)

  abbrev pub from_payload : Option Fields → Result (List Number)
  from_payload none = err unsupported
  from_payload (some fields) =
      floats_or (as_list (get (text "embedding") fields))
        (from_data (as_list (get (text "data") fields)))

  unfoldable pub extract_embedding_vector : Json → Result (List Number)
  extract_embedding_vector payload = from_payload (as_dict payload)

  abbrev pub filled : Result (List Number) → Result (List Number)
  filled (err e) = err e
  filled (ok []) = err (analysis_failed (text "wormsoft_embedding_response_missing_vector"))
  filled (ok (number ∷ numbers)) = ok (number ∷ numbers)

  abbrev pub received : Result Json → Result (List Number)
  received (err e) = err e
  received (ok payload) = filled (extract_embedding_vector payload)

  -- `post` is given the model and the input.
  unfoldable pub embed : (Text → Text → Result Json) → Text → Text → Text → Result (List Number)
  embed post default_model content model =
      received (post (if is_empty model then default_model else model) content)
