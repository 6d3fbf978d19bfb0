-- ===== src/Orchestrator/Router/Analyze.antt =====
-- `_parse_analysis_payload` and `AnalysisRouter.analyze` of llm.py. A provider's call, the search for a
-- JSON object and its decoding are parameters; the prompts are what they are made of.
use personal_intelligence.Base.{Bool, Option, none, some, List, [], ◌∷◌, Text, if◌then◌else◌}
use personal_intelligence.Exec.{Result, ok, err}
use personal_intelligence.Contracts.{
  StructuredAnalysisResult, WindowMessagePayload, MessageFeatureSet,
}
use personal_intelligence.Orchestrator.Features.{Patterns}
use personal_intelligence.Orchestrator.Router.Signals.{Payload}
use personal_intelligence.Orchestrator.Router.Heuristic.{heuristic_analysis}
use personal_intelligence.Orchestrator.Router.Sanitize.{sanitize_result}
use personal_intelligence.Orchestrator.Router.Translation.{needs_russian_translation}

-- What a provider is asked: to analyse a window in its context, or to translate a result.
pub data Request (Context : Type 0) : Type 0 where
  analysis_of : Text → List WindowMessagePayload → MessageFeatureSet → Context → Request Context
  translation_of : StructuredAnalysisResult → Request Context

pub record Client (Context : Type 0) : Type 0 where
  pub is_available : Bool
  pub complete_text : Request Context → Result Text

pub record Tools : Type 0 where
  pub patterns : Patterns
  pub as_json : Payload → Text
  pub has_task_hint : Text → Bool
  pub find_json : Text → Option Text
  pub decode : Text → Result StructuredAnalysisResult
  pub analysis_output_language : Text

module _ (tools : Tools) (window_id : Text) (messages : List WindowMessagePayload)
    (features : MessageFeatureSet) where
  abbrev pub fall_back : Result StructuredAnalysisResult
  fall_back =
      heuristic_analysis tools.patterns tools.as_json tools.has_task_hint window_id messages
        features

  abbrev pub sanitize_decoded : Result StructuredAnalysisResult → Result StructuredAnalysisResult
  sanitize_decoded (err e) = err e
  sanitize_decoded (ok result) =
      sanitize_result tools.patterns tools.as_json messages features
        (record result { source_window_id = window_id })

  abbrev pub parse_found : Option Text → Result StructuredAnalysisResult
  parse_found none = fall_back
  parse_found (some json) = sanitize_decoded (tools.decode json)

  unfoldable pub parse_analysis_payload : Text → Result StructuredAnalysisResult
  parse_analysis_payload raw_text = parse_found (tools.find_json raw_text)

  abbrev pub parse_answer : Result Text → Result StructuredAnalysisResult
  parse_answer (err e) = err e
  parse_answer (ok raw) = parse_analysis_payload raw

  abbrev pub is_foreign : StructuredAnalysisResult → Bool
  is_foreign result =
      needs_russian_translation tools.patterns.casefold result tools.analysis_output_language

  -- The translation is taken where it is one.
  abbrev pub choose :
      StructuredAnalysisResult → Result StructuredAnalysisResult → Result StructuredAnalysisResult
  choose result (err e) = err e
  choose result (ok translated) = if is_foreign translated then ok result else ok translated

  module _ {Context : Type 0} (context : Context) where
    abbrev pub translate :
        Client Context → Result StructuredAnalysisResult → Result StructuredAnalysisResult
    translate client (err e) = err e
    translate client (ok result) =
        if is_foreign result
        then choose result (parse_answer (client.complete_text (translation_of result)))
        else ok result

    -- The body of the `try`
    unfoldable pub ask : Client Context → Result StructuredAnalysisResult
    ask client =
        translate client
          (parse_answer (client.complete_text (analysis_of window_id messages features context)))

    abbrev pub ok_or :
        Result StructuredAnalysisResult
        → Result StructuredAnalysisResult
        → Result StructuredAnalysisResult
    ok_or (ok result) next = ok result
    ok_or (err e) next = next

    -- The providers in turn: one that is not available or that raises is passed over.
    unfoldable pub analyze : List (Client Context) → Result StructuredAnalysisResult
    analyze [] = fall_back
    analyze (client ∷ clients) =
        let rest = analyze clients in if client.is_available then ok_or (ask client) rest else rest
