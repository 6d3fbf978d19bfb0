-- ===== src/Orchestrator/Router/Scores.antt =====
-- When the fall back of the router returns: pydantic refuses a score above 1, which the balance of the
-- initiative reaches as soon as no author has about half of the messages.
use personal_intelligence.Base.{
  ℕ, zero, suc, ◌*◌, ◌-◌, ◌≤◌, ◌<◌, min, max, ◌≡◌, refl, List, [], ◌∷◌, ◌++◌, length, elem, as_set,
  text_eq, ltb, Text, ℤ, leb, le→leb, leb-false, Bool-cases, inl, inr, arith, Ratio, IsRounding,
  at_most_one, at_most_one-le, at_most_one-pos, add_ratio,
}
use personal_intelligence.Exec.{Result, err, Returns}
use personal_intelligence.Contracts.{
  Sentiment, positive, negative, neutral, mixed, SignalKind, AnalyticsSignal, WindowMessagePayload,
  MessageFeatureSet,
}
use personal_intelligence.Orchestrator.Features.{Patterns}
use personal_intelligence.Orchestrator.Summary.{drift_of, topic_drift_score}
use personal_intelligence.Orchestrator.Router.Signals.{
  Payload, or_zero, responsiveness_of, activity_of, sum_of, dominant_of, balance_of, friction_of,
  calm_of, health_of, thirds, score_error, make_signal, onto_result, collect, heuristic_signals,
}

-- The most active author wrote half of the messages or more.
abbrev pub IsLed : List (ℤ × ℕ) → Type 0
IsLed [] = Unit
IsLed (entry ∷ counter) = max (sum_of (entry ∷ counter)) 1 ≤ 2 * dominant_of (entry ∷ counter)

make_signal-Returns :
    (kind : SignalKind) (score : ℕ) (summary : Text) (evidence : List ℤ) (payload : Text)
    → score ≤ 1000
    → Returns (make_signal kind score summary evidence payload)
unfolding make_signal
make_signal-Returns kind score summary evidence payload h = rw (le→leb score 1000 h) (_, refl)

make_signal_fails :
    (kind : SignalKind) (score : ℕ) (summary : Text) (evidence : List ℤ) (payload : Text)
    → 1000 < score
    → make_signal kind score summary evidence payload ≡ err score_error
unfolding make_signal
make_signal_fails kind score summary evidence payload h = rw (leb-false score 1000 h) refl

-- A list of two calls or more, of which the second raises the error that the first may raise
collect_fails :
    (score : ℕ) (kind : SignalKind) (summary : Text) (evidence : List ℤ) (payload : Text)
    (second : Result AnalyticsSignal) (rest : Result (List AnalyticsSignal))
    → second ≡ err score_error
    → onto_result (make_signal kind score summary evidence payload) (onto_result second rest)
      ≡ err score_error
unfolding make_signal
collect_fails score kind summary evidence payload second rest h =
    elim (Bool-cases (leb score 1000)) [ inl low ↦ rw (low, h) refl | inr high ↦ rw high refl ]

onto_result-Returns {ℓ} :
    {A : Type ℓ} (r : Result A) (rest : Result (List A))
    → Returns r
    → Returns rest
    → Returns (onto_result r rest)
onto_result-Returns r rest (a, h) (items, t) = rw (h, t) (_, refl)

module _ (round3 : ℕ → ℕ → ℕ) (rounding : IsRounding round3) where
  rounds_below : (q : Ratio) → q.num ≤ q.den → 0 < q.den → round3 q.num q.den ≤ 1000
  rounds_below q h positive_den = rounding.at_most q.num q.den 1000 (omega (arith, h)) positive_den

  responsiveness_le :
      (latency : ℕ) → round3 (responsiveness_of latency).num (responsiveness_of latency).den ≤ 1000
  unfolding responsiveness_of
  responsiveness_le latency = elim (Bool-cases (leb latency 0)) [
    | inl none_at_all ↦
        rw none_at_all (rounds_below (record { num = 1; den = 1 }) (omega arith) (omega arith))
    | inr some_pause ↦ rw some_pause (
        rounds_below (record { num = 7200000 - min latency 7200000; den = 7200000 }) (omega arith)
          (omega arith))
  ]

  activity_le : (n : ℕ) → round3 (activity_of n).num (activity_of n).den ≤ 1000
  unfolding activity_of
  activity_le n =
      rounds_below (at_most_one (record { num = n; den = 20 })) (at_most_one-le _)
        (at_most_one-pos _ (omega arith))

  balance_le :
      (counter : List (ℤ × ℕ))
      → IsLed counter
      → round3 (balance_of counter).num (balance_of counter).den ≤ 1000
  unfolding balance_of
  balance_le [] led = rounds_below (record { num = 0; den = 1 }) (omega arith) (omega arith)
  balance_le (entry ∷ counter) led =
      rounds_below (balance_of (entry ∷ counter)) (omega (arith, led)) (omega arith)

  balance_above :
      (entry : ℤ × ℕ) (counter : List (ℤ × ℕ))
      → 1000 * dominant_of (entry ∷ counter) ≤ 499 * sum_of (entry ∷ counter)
      → 1000 < round3 (balance_of (entry ∷ counter)).num (balance_of (entry ∷ counter)).den
  unfolding balance_of
  balance_above entry counter h = omega (
    arith,
    rounding.at_least (balance_of (entry ∷ counter)).num (balance_of (entry ∷ counter)).den 1001
        (omega (arith, h)) (omega arith),
  )

  thirds_pos : (q : Ratio) → 0 < q.den → 0 < (thirds q).den
  thirds_pos q h = omega (arith, h)

  friction_le : (s : Sentiment) → round3 (friction_of s) 1000 ≤ 1000
  unfolding friction_of
  friction_le positive = rounding.at_most 200 1000 1000 (omega arith) (omega arith)
  friction_le negative = rounding.at_most 700 1000 1000 (omega arith) (omega arith)
  friction_le neutral = rounding.at_most 200 1000 1000 (omega arith) (omega arith)
  friction_le mixed = rounding.at_most 500 1000 1000 (omega arith) (omega arith)

  mul_pos : (a b : ℕ) → 0 < a → 0 < b → 0 < a * b
  mul_pos zero b ha hb = absurd (omega (arith, ha))
  mul_pos (suc a) b ha hb = omega (arith, hb)

  responsiveness_pos : (latency : ℕ) → 0 < (responsiveness_of latency).den
  unfolding responsiveness_of
  responsiveness_pos latency = ground arith

  balance_pos : (counter : List (ℤ × ℕ)) → 0 < (balance_of counter).den
  unfolding balance_of
  balance_pos [] = omega arith
  balance_pos (entry ∷ counter) = omega arith

  health_le :
      (latency : ℕ) (counter : List (ℤ × ℕ)) (friction_score : ℕ)
      → let q = health_of (responsiveness_of latency) (balance_of counter) friction_score in
        round3 q.num q.den ≤ 1000
  unfolding health_of add_ratio
  health_le latency counter friction_score =
      let inner = add_ratio (responsiveness_of latency) (balance_of counter) in
      let calm = calm_of friction_score in
      let q = thirds (add_ratio inner calm) in
      rounds_below (at_most_one q) (at_most_one-le q) (
        at_most_one-pos q (
          thirds_pos (add_ratio inner calm) (
            mul_pos inner.den 1000
              (mul_pos (responsiveness_of latency).den (balance_of counter).den
                (responsiveness_pos latency) (balance_pos counter))
              (omega arith))))

as_set_pos : (a : Text) (items : List Text) → 0 < length (as_set (a ∷ items))
unfolding as_set
as_set_pos a [] = omega arith
as_set_pos a (b ∷ items) = elim (Bool-cases (elem a (as_set (b ∷ items)))) [
  | inl there ↦ rw there (as_set_pos b items)
  | inr new ↦ rw new (omega arith)
]

module _ (p : Patterns) (rounding : IsRounding p.round3) where
  drift_of_le : (first second : List Text) → drift_of p first second ≤ 1000
  drift_of_le [] second = omega arith
  drift_of_le (a ∷ first) [] = omega arith
  drift_of_le (a ∷ first) (b ∷ second) =
      rounding.at_most _ _ 1000 (omega arith) (as_set_pos a (first ++ b ∷ second))

  topic_drift_score_le :
      (messages : List WindowMessagePayload) → topic_drift_score p messages ≤ 1000
  unfolding topic_drift_score
  topic_drift_score_le messages = elim (Bool-cases (ltb (length messages) 2)) [
    | inl short ↦ rw short (omega arith)
    | inr long ↦ rw long (drift_of_le _ _)
  ]

module _ (p : Patterns) (as_json : Payload → Text) (rounding : IsRounding p.round3) where
  pub heuristic_signals-Returns :
      (messages : List WindowMessagePayload) (features : MessageFeatureSet)
      → IsLed features.author_activity
      → Returns (heuristic_signals p as_json messages features)
  unfolding heuristic_signals collect
  heuristic_signals-Returns messages features led =
      let latency = or_zero features.median_response_latency_sec in
      let step = onto_result-Returns in
      step _ _ (make_signal-Returns _ _ _ _ _ (responsiveness_le p.round3 rounding latency)) (
        step _ _
          (make_signal-Returns _ _ _ _ _
            (balance_le p.round3 rounding features.author_activity led))
          (step _ _
            (make_signal-Returns _ _ _ _ _ (
              rounding.at_most (topic_drift_score p messages) 1000 1000
                (omega (arith, topic_drift_score_le p rounding messages)) (omega arith)))
            (step _ _
              (make_signal-Returns _ _ _ _ _
                (friction_le p.round3 rounding features.sentiment_hint))
              (step _ _
                (make_signal-Returns _ _ _ _ _ (
                  health_le p.round3 rounding latency features.author_activity
                    (friction_of features.sentiment_hint)))
                (step _ _
                  (make_signal-Returns _ _ _ _ _
                    (activity_le p.round3 rounding features.message_count))
                  ([], refl))))))

  pub heuristic_signals_fails :
      (messages : List WindowMessagePayload) (features : MessageFeatureSet) (entry : ℤ × ℕ)
      (counter : List (ℤ × ℕ))
      → features.author_activity ≡ entry ∷ counter
      → 1000 * dominant_of (entry ∷ counter) ≤ 499 * sum_of (entry ∷ counter)
      → heuristic_signals p as_json messages features ≡ err score_error
  unfolding heuristic_signals collect
  heuristic_signals_fails messages features entry counter shape spread =
      collect_fails _ _ _ _ _ _ _ (
        make_signal_fails _ _ _ _ _
          (rw shape (balance_above p.round3 rounding entry counter spread)))
