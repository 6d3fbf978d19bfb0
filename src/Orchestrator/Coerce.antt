-- ===== src/Orchestrator/Coerce.antt =====
-- `_coerce_json_value` and `_coerce_window_messages` of consumer.py: the messages of a stored window, which
-- the driver hands over as the text of their JSON or decoded.
use personal_intelligence.Base.{ℕ, zero, suc, Option, none, some, List, [], ◌∷◌, Text}
use personal_intelligence.Exec.{Result, ok, err}
use personal_intelligence.Contracts.{WindowMessagePayload}

-- A value of JSON, as far as the functions tell values apart; the items of a list are texts of JSON.
pub data Json : Type 0 where
  null : Json
  string : Text → Json
  list : List Text → Json
  scalar_or_object : Json

-- `json.loads`, which fails or gives a value, and pydantic's `WindowMessagePayload.model_validate`
pub record JsonTools : Type 0 where
  pub loads : Text → Option Json
  pub model_validate : Text → Result WindowMessagePayload

module _ (json : JsonTools) where
  -- A text that is no JSON gives the value that the rounds began with.
  abbrev pub next_round : Json → (Json → Json) → Option Json → Json
  next_round raw rounds none = raw
  next_round raw rounds (some value) = rounds value

  -- The rounds that are left, the value that they began with and the current one
  unfoldable pub coerce_rounds : ℕ → Json → Json → Json
  coerce_rounds zero raw current = current
  coerce_rounds (suc n) raw null = null
  coerce_rounds (suc n) raw (list items) = list items
  coerce_rounds (suc n) raw scalar_or_object = scalar_or_object
  coerce_rounds (suc n) raw (string t) = next_round raw (coerce_rounds n raw) (json.loads t)

  unfoldable pub coerce_json_value : Json → Json
  unfolding coerce_rounds
  coerce_json_value raw = coerce_rounds 3 raw raw

  abbrev pub cons_onto :
      Result WindowMessagePayload
      → Result (List WindowMessagePayload)
      → Result (List WindowMessagePayload)
  cons_onto (err e) rest = err e
  cons_onto (ok m) (err e) = err e
  cons_onto (ok m) (ok ms) = ok (m ∷ ms)

  unfoldable pub validate_each : List Text → Result (List WindowMessagePayload)
  validate_each [] = ok []
  validate_each (item ∷ items) = cons_onto (json.model_validate item) (validate_each items)

  abbrev pub validate_list : Json → Result (List WindowMessagePayload)
  validate_list (list items) = validate_each items
  validate_list null = ok []
  validate_list (string t) = ok []
  validate_list scalar_or_object = ok []

  -- What is no list is an empty window.
  unfoldable pub coerce_window_messages : Json → Result (List WindowMessagePayload)
  unfolding coerce_json_value validate_each
  coerce_window_messages null = ok []
  coerce_window_messages (string t) = validate_list (coerce_json_value (string t))
  coerce_window_messages (list items) = validate_list (coerce_json_value (list items))
  coerce_window_messages scalar_or_object = ok []
