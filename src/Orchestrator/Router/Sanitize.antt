-- ===== src/Orchestrator/Router/Sanitize.antt =====
-- `_sanitize_result` of llm.py: only what cites messages of the window is kept.
use personal_intelligence.Base.{
  min, max, List, [], ◌∷◌, map, keep_if, elem, is_empty, Text, ℤ, int_eq, if◌then◌else◌,
}
use personal_intelligence.Exec.{Result, ok, err}
use personal_intelligence.Contracts.{
  StructuredClaim, StructuredTask, AnalyticsSignal, StructuredAnalysisResult, WindowMessagePayload,
  MessageFeatureSet,
}
use personal_intelligence.Orchestrator.Features.{Patterns}
use personal_intelligence.Orchestrator.Router.Signals.{Payload, message_ids, heuristic_signals}

abbrev pub in_window : List ℤ → List ℤ → List ℤ
in_window valid ids = keep_if (λ id. elem id valid) ids

unfoldable pub safe_claims : List ℤ → List StructuredClaim → List StructuredClaim
safe_claims valid [] = []
safe_claims valid (claim ∷ claims) =
    let rest = safe_claims valid claims in
    let evidence = in_window valid claim.evidence_message_ids in
    if is_empty evidence
    then rest
    else record claim { confidence = min claim.confidence 1000; evidence_message_ids = evidence }
      ∷ rest

unfoldable pub safe_tasks : List ℤ → List StructuredTask → List StructuredTask
safe_tasks valid [] = []
safe_tasks valid (task ∷ tasks) =
    let rest = safe_tasks valid tasks in
    let evidence = in_window valid task.evidence_message_ids in
    if is_empty evidence
    then rest
    else record task {
      priority = min (max task.priority 1) 5;
      confidence = min task.confidence 1000;
      evidence_message_ids = evidence;
    }
      ∷ rest

abbrev pub safe_signal : List ℤ → AnalyticsSignal → AnalyticsSignal
safe_signal valid signal = record signal {
  score = min signal.score 1000;
  evidence_message_ids = in_window valid signal.evidence_message_ids;
}

unfoldable pub safe_signals : List ℤ → List AnalyticsSignal → List AnalyticsSignal
safe_signals valid signals = map (safe_signal valid) signals

module _ (p : Patterns) (as_json : Payload → Text) where
  -- `if not safe_signals`
  abbrev pub or_heuristic :
      List WindowMessagePayload
      → MessageFeatureSet
      → List AnalyticsSignal
      → Result (List AnalyticsSignal)
  or_heuristic messages features [] = heuristic_signals p as_json messages features
  or_heuristic messages features (signal ∷ signals) = ok (signal ∷ signals)

  abbrev pub with_safe :
      List ℤ
      → StructuredAnalysisResult
      → Result (List AnalyticsSignal)
      → Result StructuredAnalysisResult
  with_safe valid result (err e) = err e
  with_safe valid result (ok signals) = ok (record result {
    claims = safe_claims valid result.claims;
    tasks = safe_tasks valid result.tasks;
    analytics_signals = signals;
    confidence = min result.confidence 1000;
  })

  unfoldable pub sanitize_result :
      List WindowMessagePayload
      → MessageFeatureSet
      → StructuredAnalysisResult
      → Result StructuredAnalysisResult
  sanitize_result messages features result =
      let valid = message_ids messages in
      with_safe valid result
        (or_heuristic messages features (safe_signals valid result.analytics_signals))
