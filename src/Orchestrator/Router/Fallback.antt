-- ===== src/Orchestrator/Router/Fallback.antt =====
-- The router as a whole: when it returns, and when it does not.
use personal_intelligence.Base.{
  ℕ, ◌≤◌, refl, List, [], ◌∷◌, length, Text, ℤ, ◌==◌, int_eq, Bool-cases, inl, inr, arith,
  IsRounding,
}
use personal_intelligence.Exec.{Result, ok, err, Returns}
use personal_intelligence.Contracts.{
  StructuredAnalysisResult, WindowMessagePayload, MessageFeatureSet,
}
use personal_intelligence.Orchestrator.Features.{count_onto, sender_ids, compute_message_features}
use personal_intelligence.Orchestrator.Counting.{ArePositive, count_onto-ArePositive}
use personal_intelligence.Orchestrator.Router.Signals.{sum_of, dominant_of, heuristic_signals}
use personal_intelligence.Orchestrator.Router.Heuristic.{heuristic_analysis}
use personal_intelligence.Orchestrator.Router.Analyze.{
  Client, Tools, fall_back, ask, ok_or, analyze,
}
use personal_intelligence.Orchestrator.Router.Scores.{IsLed, heuristic_signals-Returns}

two_authors-IsLed :
    (counter : List (ℤ × ℕ)) → ArePositive counter → length counter ≤ 2 → IsLed counter
unfolding sum_of dominant_of
two_authors-IsLed [] h short = tt
two_authors-IsLed (a ∷ []) h short = omega (arith, h.0)
two_authors-IsLed (a ∷ b ∷ []) h short = omega (arith, h.0, h.1.0)
two_authors-IsLed (a ∷ b ∷ c ∷ rest) h short = absurd (omega (arith, short))

module _ (tools : Tools) (window_id : Text) (messages : List WindowMessagePayload)
    {Context : Type 0} (context : Context) where
  fall_back-Returns :
      (features : MessageFeatureSet)
      → Returns (heuristic_signals tools.patterns tools.as_json messages features)
      → Returns (fall_back tools window_id messages features)
  unfolding heuristic_analysis
  fall_back-Returns features (signals, h) = rw h (_, refl)

  ok_or-Returns :
      (features : MessageFeatureSet) (r next : Result StructuredAnalysisResult)
      → Returns next
      → Returns (ok_or tools window_id messages features context r next)
  ok_or-Returns features (ok r) next h = (r, refl)
  ok_or-Returns features (err e) next h = h

  analyze-Returns_led :
      (features : MessageFeatureSet)
      → IsRounding tools.patterns.round3
      → IsLed features.author_activity
      → (clients : List (Client Context))
      → Returns (analyze tools window_id messages features context clients)
  unfolding analyze ask
  analyze-Returns_led features rounding led [] =
      fall_back-Returns features
        (heuristic_signals-Returns tools.patterns tools.as_json rounding messages features led)
  analyze-Returns_led features rounding led (client ∷ clients) =
      elim (Bool-cases client.is_available) [
        | inr away ↦ rw away (analyze-Returns_led features rounding led clients)
        | inl there ↦ rw there (
            ok_or-Returns features (ask tools window_id messages features context client) _
              (analyze-Returns_led features rounding led clients))
      ]

  -- If `round` is a rounding to thousandths, the router returns a result for every window of at most two
  -- authors, with the features that are computed of it, whatever the providers answer and also where
  -- each of them raises.
  pub analyze-Returns :
      (chat_type window_kind : Text) (clients : List (Client Context))
      → IsRounding tools.patterns.round3
      → length
          (compute_message_features tools.patterns messages chat_type window_kind).author_activity
        ≤ 2
      → Returns (
          analyze tools window_id messages
            (compute_message_features tools.patterns messages chat_type window_kind)
            context
            clients)
  unfolding compute_message_features
  analyze-Returns chat_type window_kind clients rounding few =
      analyze-Returns_led _ rounding
        (two_authors-IsLed (count_onto (λ a b. a == b) (sender_ids messages) [])
          (count_onto-ArePositive (sender_ids messages) [] tt) few)
        clients
