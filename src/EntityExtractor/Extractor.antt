-- ===== src/EntityExtractor/Extractor.antt =====
-- extractor.py. The models of spaCy, `langdetect`, the substitutions of Python's `re` and `str.lower`
-- are the parameters of `Nlp`. Confidences are thousandths.
use personal_intelligence.Base.{
  ℕ, ◌||◌, Option, none, some, List, [], ◌∷◌, ◌++◌, Text, text, text_eq, ◌==◌, elem, is_empty,
  strip, starts_with, keep_if, leb, if◌then◌else◌,
}
use personal_intelligence.Exec.{Result, ok, err}
use personal_intelligence.Contracts.{EntityKind, person, organization, topic}

-- An entity of `doc.ents`
pub record Span : Type 0 where
  pub label : Text
  pub content : Text

-- `lower` is `str.lower`, `detect` is langdetect's, which may raise; `read` is the model of a language,
-- which may raise too, as its loading may.
pub record Nlp : Type 0 where
  pub lower : Text → Text
  pub detect : Text → Result Text
  pub sub_urls : Text → Text
  pub sub_emails : Text → Text
  pub sub_phones : Text → Text
  pub read : Text → Text → Result (List Span)

pub record RawEntity : Type 0 where
  pub kind : EntityKind
  pub surface : Text
  pub normalized : Text
  pub confidence : ℕ

unfoldable pub label_map : Text → Option EntityKind
label_map label =
    if label == text "PER" || label == text "PERSON"
    then some person
    else if label == text "ORG"
    then some organization
    else if elem label
        (text "GPE" ∷ text "LOC" ∷ text "NORP" ∷ text "WORK_OF_ART" ∷ text "EVENT" ∷ [])
    then some topic
    else none

abbrev pub kind_name : EntityKind → Text
kind_name person = text "person"
kind_name organization = text "organization"
kind_name topic = text "topic"

-- `f"{kind}:{normalized}"`
abbrev pub key_of : EntityKind → Text → Text
key_of kind normalized = kind_name kind ++ 58 ∷ normalized

abbrev pub key : RawEntity → Text
key e = key_of e.kind e.normalized

module _ (nlp : Nlp) where
  abbrev pub known_language : Result Text → Text
  known_language (ok lang) = if lang == text "ru" || lang == text "en" then lang else text "en"
  known_language (err e) = text "en"

  unfoldable pub detect_language : Text → Text
  detect_language content = known_language (nlp.detect content)

  unfoldable pub preprocess : Text → Text
  preprocess content = nlp.sub_phones (nlp.sub_emails (nlp.sub_urls content))

  abbrev pub raw_entity : EntityKind → Text → RawEntity
  raw_entity kind surface = record {
    kind = kind;
    surface = surface;
    normalized = strip (nlp.lower surface);
    confidence = 750;
  }

  -- The entity of a span: its label must be known, and its surface neither blank nor a placeholder.
  abbrev pub entity_of_kind : Text → Option EntityKind → Option RawEntity
  entity_of_kind surface none = none
  entity_of_kind surface (some kind) =
      if is_empty surface || starts_with (text "__") surface
      then none
      else some (raw_entity kind surface)

  unfoldable pub entity_of : Span → Option RawEntity
  entity_of span = entity_of_kind (strip span.content) (label_map span.label)

  -- The body of the loop over `doc.ents`, and the loop, with the keys that have been seen.
  abbrev pub add_entity :
      List Text → Option RawEntity → (List Text → List RawEntity) → List RawEntity
  add_entity seen none continue = continue seen
  add_entity seen (some e) continue =
      if elem (key e) seen then continue seen else e ∷ continue (key e ∷ seen)

  unfoldable pub collect : List Text → List Span → List RawEntity
  collect seen [] = []
  collect seen (span ∷ spans) = add_entity seen (entity_of span) (λ keys. collect keys spans)

  abbrev pub entities_of : Text → ℕ → Result (List Span) → Result (Text × List RawEntity)
  entities_of lang min_confidence (err e) = err e
  entities_of lang min_confidence (ok spans) =
      ok (lang, keep_if (λ e. leb min_confidence e.confidence) (collect [] spans))

  unfoldable pub extract : Text → ℕ → Result (Text × List RawEntity)
  extract content min_confidence =
      if is_empty content || is_empty (strip content)
      then ok (text "en", [])
      else let lang = detect_language content in
        entities_of lang min_confidence (nlp.read lang (preprocess content))
