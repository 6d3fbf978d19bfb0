-- ===== src/EntityExtractor/Distinct.antt =====
-- What `extract` of extractor.py returns.
use personal_intelligence.Base.{
  ℕ, ◌≡◌, refl, Bool, false, ◌||◌, Option, none, some, List, [], ◌∷◌, Text, text, elem, text_eq,
  ◌==◌, All, strip, IsTrimmed, strip-IsTrimmed, keep_if, is_empty, starts_with, Bool-cases, inl,
  inr, arith,
}
use personal_intelligence.Exec.{Result, ok, err}
use personal_intelligence.Contracts.{EntityKind}
use personal_intelligence.EntityExtractor.Extractor.{
  Nlp, Span, RawEntity, key, add_entity, entity_of, entity_of_kind, label_map, collect, entities_of,
  extract, detect_language, preprocess,
}

-- No later entity has the key of an earlier one.
abbrev pub IsDistinct : List RawEntity → Type 0
IsDistinct [] = Unit
IsDistinct (e ∷ es) = All (λ (f : RawEntity). (key f == key e) ≡ false) es × IsDistinct es

pub record IsProper (nlp : Nlp) (e : RawEntity) : Type 0 where
  pub surface_full : is_empty e.surface ≡ false
  pub surface_trimmed : IsTrimmed e.surface
  pub no_placeholder : starts_with (text "__") e.surface ≡ false
  pub lowered : e.normalized ≡ strip (nlp.lower e.surface)

abbrev Each : (RawEntity → Type 0) → Option RawEntity → Type 0
Each P none = Unit
Each P (some e) = P e

abbrev IsNew : List Text → RawEntity → Type 0
IsNew seen e = elem (key e) seen ≡ false

module _ (nlp : Nlp) where
  All-weaken :
      {P Q : RawEntity → Type 0} (es : List RawEntity)
      → ((e : RawEntity) → P e → Q e)
      → All P es
      → All Q es
  All-weaken [] f h = tt
  All-weaken (e ∷ es) f h = (f e h.0, All-weaken es f h.1)

  collect-IsNew : (spans : List Span) (seen : List Text) → All (IsNew seen) (collect nlp seen spans)
  unfolding collect
  collect-IsNew [] seen = tt
  collect-IsNew (span ∷ spans) seen = add (entity_of nlp span) (collect-IsNew spans)
    where
      add :
          (o : Option RawEntity)
          → ((keys : List Text) → All (IsNew keys) (collect nlp keys spans))
          → All (IsNew seen) (add_entity nlp seen o (λ keys. collect nlp keys spans))
      add none rest = rest seen
      add (some e) rest = elim (Bool-cases (elem (key e) seen)) [
        | inl old ↦ rw old (rest seen)
        | inr new ↦ rw new (
          new,
          All-weaken (collect nlp (key e ∷ seen) spans) (λ f h. ground arith) (rest (key e ∷ seen)),
        )
      ]

  collect-IsDistinct : (spans : List Span) (seen : List Text) → IsDistinct (collect nlp seen spans)
  unfolding collect
  collect-IsDistinct [] seen = tt
  collect-IsDistinct (span ∷ spans) seen =
      add (entity_of nlp span) (collect-IsDistinct spans) (collect-IsNew spans)
    where
      add :
          (o : Option RawEntity)
          → ((keys : List Text) → IsDistinct (collect nlp keys spans))
          → ((keys : List Text) → All (IsNew keys) (collect nlp keys spans))
          → IsDistinct (add_entity nlp seen o (λ keys. collect nlp keys spans))
      add none rest rest_new = rest seen
      add (some e) rest rest_new = elim (Bool-cases (elem (key e) seen)) [
        | inl old ↦ rw old (rest seen)
        | inr new ↦ rw new (
          All-weaken (collect nlp (key e ∷ seen) spans) (λ f h. ground arith)
              (rest_new (key e ∷ seen)),
          rest (key e ∷ seen),
        )
      ]

  entity_of-IsProper : (span : Span) → Each (IsProper nlp) (entity_of nlp span)
  unfolding entity_of
  entity_of-IsProper span = by_kind (label_map span.label)
    where
      surface : Text
      surface = strip span.content

      by_kind : (kind : Option EntityKind) → Each (IsProper nlp) (entity_of_kind nlp surface kind)
      by_kind none = tt
      by_kind (some kind) =
          elim (Bool-cases (is_empty surface || starts_with (text "__") surface)) [
            | inl bad ↦ rw bad tt
            | inr good ↦ rw good (record {
              surface_full = ground arith;
              surface_trimmed = strip-IsTrimmed span.content;
              no_placeholder = ground arith;
              lowered = refl;
            })
          ]

  collect-IsProper :
      (spans : List Span) (seen : List Text) → All (IsProper nlp) (collect nlp seen spans)
  unfolding collect
  collect-IsProper [] seen = tt
  collect-IsProper (span ∷ spans) seen =
      add (entity_of nlp span) (collect-IsProper spans) (entity_of-IsProper span)
    where
      add :
          (o : Option RawEntity)
          → ((keys : List Text) → All (IsProper nlp) (collect nlp keys spans))
          → Each (IsProper nlp) o
          → All (IsProper nlp) (add_entity nlp seen o (λ keys. collect nlp keys spans))
      add none rest h = rest seen
      add (some e) rest h = elim (Bool-cases (elem (key e) seen)) [
        | inl old ↦ rw old (rest seen)
        | inr new ↦ rw new (h, rest (key e ∷ seen))
      ]

keep_if-All :
    (P : RawEntity → Type 0) (p : RawEntity → Bool) (es : List RawEntity)
    → All P es
    → All P (keep_if p es)
keep_if-All P p [] h = tt
keep_if-All P p (e ∷ es) h = elim (Bool-cases (p e)) [
  | inl hit ↦ rw hit (h.0, keep_if-All P p es h.1)
  | inr miss ↦ rw miss (keep_if-All P p es h.1)
]

keep_if-IsDistinct :
    (p : RawEntity → Bool) (es : List RawEntity) → IsDistinct es → IsDistinct (keep_if p es)
keep_if-IsDistinct p [] h = tt
keep_if-IsDistinct p (e ∷ es) h = elim (Bool-cases (p e)) [
  | inl hit ↦ rw hit (keep_if-All _ p es h.0, keep_if-IsDistinct p es h.1)
  | inr miss ↦ rw miss (keep_if-IsDistinct p es h.1)
]

-- The entities that a text is reported with, and what is raised instead.
abbrev pub IsExtracted : Nlp → Text → Result (Text × List RawEntity) → Type 0
IsExtracted nlp content (ok (lang, entities)) = IsDistinct entities × All (IsProper nlp) entities
IsExtracted nlp content (err e) =
    nlp.read (detect_language nlp content) (preprocess nlp content) ≡ err e

-- Whatever the language models answer: the entities of a text are told apart by kind and normalized
-- form; each surface has a character and no space at either end, and is not that of a placeholder; and
-- each normalized form is the lowered and stripped surface. The extraction raises only what the model of
-- the text's language raised on the text with its placeholders.
pub extract_lem :
    (nlp : Nlp) (content : Text) (min_confidence : ℕ)
    → IsExtracted nlp content (extract nlp content min_confidence)
unfolding extract
extract_lem nlp content min_confidence =
    elim (Bool-cases (is_empty content || is_empty (strip content))) [
      | inl void ↦ rw void (tt, tt)
      | inr full ↦
          rw full (of_answer (nlp.read (detect_language nlp content) (preprocess nlp content)) refl)
    ]
  where
    of_answer :
        (answer : Result (List Span))
        → nlp.read (detect_language nlp content) (preprocess nlp content) ≡ answer
        → IsExtracted nlp content
            (entities_of nlp (detect_language nlp content) min_confidence answer)
    of_answer (err e) raised = raised
    of_answer (ok spans) answered = (
      keep_if-IsDistinct _ _ (collect-IsDistinct nlp spans []),
      keep_if-All _ _ _ (collect-IsProper nlp spans []),
    )
