-- ===== src/ChatSummarizer/Engine.antt =====
-- `ChatSummaryEngine.summarize` of llm.py. The client's call is a parameter.
use personal_intelligence.Base.{
  ℕ, ◌≡◌, refl, true, not, ◌||◌, Option, none, some, List, [], ◌∷◌, map, keep_if, is_empty, Text,
  text, text_eq, ◌==◌, strip, Bool-cases, inl, inr, if◌then◌else◌,
}
use personal_intelligence.Exec.{Result, ok, err, Returns}
use personal_intelligence.Contracts.{Sentiment}
use personal_intelligence.ChatSummarizer.Windows.{WindowMessage}
use personal_intelligence.ChatSummarizer.Heuristics.{Words, SummaryResult, summarize_window}

-- `SummaryPayload` of libs/llm-client, without the hints of tasks, which are not read.
pub record SummaryPayload : Type 0 where
  pub topics : List Text
  pub sentiment : Sentiment
  pub summary : Text

pub record Engine : Type 0 where
  pub mode : Text
  pub complete_summary : Option (List WindowMessage → Result SummaryPayload)
  pub words : Words
  pub summarizer_max_summary_chars : ℕ

-- `a or b`
abbrev pub or_else {ℓ} : {A : Type ℓ} → List A → List A → List A
or_else [] other = other
or_else (a ∷ items) other = a ∷ items

-- A sentiment is never empty, so that of the payload stays.
unfoldable pub summary_from_payload : SummaryPayload → SummaryResult → SummaryResult
summary_from_payload payload fallback = record {
  topics = or_else payload.topics fallback.topics;
  sentiment = payload.sentiment;
  summary = or_else (strip payload.summary) fallback.summary;
}

abbrev pub said_texts : List WindowMessage → List Text
said_texts messages =
    keep_if (λ t. not (is_empty (strip t))) (map (λ (m : WindowMessage). m.content) messages)

module _ (engine : Engine) where
  unfoldable pub heuristic_summary : List WindowMessage → SummaryResult
  heuristic_summary messages =
      summarize_window engine.words (said_texts messages) engine.summarizer_max_summary_chars

  abbrev pub answered : SummaryResult → Result SummaryPayload → Result SummaryResult
  answered heuristic (ok payload) = ok (summary_from_payload payload heuristic)
  answered heuristic (err e) = if engine.mode == text "hybrid" then ok heuristic else err e

  abbrev pub asked :
      SummaryResult
      → List WindowMessage
      → Option (List WindowMessage → Result SummaryPayload)
      → Result SummaryResult
  asked heuristic messages none = ok heuristic
  asked heuristic messages (some complete) = answered heuristic (complete messages)

  unfoldable pub summarize : List WindowMessage → Result SummaryResult
  summarize messages =
      if engine.mode == text "local"
      then ok (heuristic_summary messages)
      else asked (heuristic_summary messages) messages engine.complete_summary

  answered-Returns :
      (heuristic : SummaryResult) (answer : Result SummaryPayload)
      → (engine.mode == text "hybrid") ≡ true
      → Returns (answered heuristic answer)
  answered-Returns heuristic (ok payload) h = (_, refl)
  answered-Returns heuristic (err e) h = rw h (_, refl)

  asked-Returns :
      (heuristic : SummaryResult) (messages : List WindowMessage)
      (complete : Option (List WindowMessage → Result SummaryPayload))
      → (engine.mode == text "hybrid") ≡ true
      → Returns (asked heuristic messages complete)
  asked-Returns heuristic messages none h = (_, refl)
  asked-Returns heuristic messages (some complete) h =
      answered-Returns heuristic (complete messages) h

  -- In the modes "local" and "hybrid" every window gets a summary, whatever the client raises.
  pub summarize-Returns :
      (messages : List WindowMessage)
      → ((engine.mode == text "local") || (engine.mode == text "hybrid")) ≡ true
      → Returns (summarize messages)
  unfolding summarize
  summarize-Returns messages = elim (Bool-cases (engine.mode == text "local")) [
    | inl here ↦ rw here (λ h. (_, refl))
    | inr away ↦
        rw away (λ h. asked-Returns (heuristic_summary messages) messages engine.complete_summary h)
  ]
