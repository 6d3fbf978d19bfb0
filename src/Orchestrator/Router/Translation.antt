-- ===== src/Orchestrator/Router/Translation.antt =====
-- `_needs_russian_translation` of llm.py and what it reads.
use personal_intelligence.Base.{
  ℕ, Bool, false, not, ◌&&◌, ◌||◌, Option, none, some, List, [], ◌∷◌, ◌++◌, map, keep_if, length,
  is_empty, Text, text, text_eq, ◌==◌, leb, ltb, leb_text, strip, if◌then◌else◌,
}
use personal_intelligence.Contracts.{
  StructuredClaim, StructuredTask, AnalyticsSignal, StructuredAnalysisResult,
}

abbrev pub or_blank : Option Text → Text
or_blank none = []
or_blank (some t) = t

unfoldable pub claim_texts : List StructuredClaim → List Text
claim_texts [] = []
claim_texts (c ∷ claims) =
    (c.claim ∷ or_blank c.subject ∷ or_blank c.object ∷ c.caveats) ++ claim_texts claims

unfoldable pub task_texts : List StructuredTask → List Text
task_texts [] = []
task_texts (t ∷ tasks) = (t.title ∷ or_blank t.description ∷ t.caveats) ++ task_texts tasks

unfoldable pub human_readable_texts : StructuredAnalysisResult → List Text
human_readable_texts result =
    keep_if (λ t. not (is_empty (strip t)))
      ((result.summary ∷ result.topics ++ result.caveats)
        ++ claim_texts result.claims
        ++ task_texts result.tasks
        ++ map (λ (s : AnalyticsSignal). s.summary) result.analytics_signals)

module _ (casefold : Text → Text) where
  abbrev pub is_between : Text → Text → ℕ → Bool
  is_between low high char =
      let folded = casefold (char ∷ []) in leb_text low folded && leb_text folded high

  abbrev pub is_yo : ℕ → Bool
  is_yo char = char ∷ [] == text "Ё" || char ∷ [] == text "ё"

  unfoldable pub looks_mostly_latin : Text → Bool
  looks_mostly_latin content =
      let latin = length (keep_if (is_between (text "a") (text "z")) content) in
      let cyrillic =
        length (keep_if (λ char. is_between (text "а") (text "я") char || is_yo char) content) in
      leb 3 latin && ltb cyrillic latin

  unfoldable pub any_latin : List Text → Bool
  any_latin [] = false
  any_latin (t ∷ texts) = looks_mostly_latin t || any_latin texts

  unfoldable pub needs_russian_translation : StructuredAnalysisResult → Text → Bool
  needs_russian_translation result target_language =
      if casefold (strip target_language) == text "ru"
      then any_latin (human_readable_texts result)
      else false
