-- ===== src/Orchestrator/Router/Signals.antt =====
-- `_heuristic_signals` of llm.py. Scores are thousandths; the floats on the way to them are quotients.
-- A signal is made by pydantic, which refuses a score above 1.
use personal_intelligence.Base.{
  ℕ, ◌+◌, ◌-◌, ◌*◌, min, max, Option, none, some, List, [], ◌∷◌, map, take, Text, text, ℤ, leb,
  Ratio, add_ratio, at_most_one, if◌then◌else◌,
}
use personal_intelligence.Exec.{Error, invalid_payload, Result, ok, err}
use personal_intelligence.Contracts.{
  Sentiment, positive, negative, neutral, mixed, SignalKind, responsiveness, initiative_balance,
  topic_drift, conversation_health, friction, activity, AnalyticsSignal, WindowMessagePayload,
  MessageFeatureSet,
}
use personal_intelligence.Orchestrator.Features.{Patterns}
use personal_intelligence.Orchestrator.Summary.{topic_drift_score}

-- The payloads of the signals, which are stored as JSON.
pub data Payload : Type 0 where
  latency_payload : ℕ → Payload
  activity_payload : List (ℤ × ℕ) → Payload
  keyword_payload : List Text → Payload
  sentiment_payload : Sentiment → Payload
  count_payload : ℕ → Payload
  no_payload : Payload

abbrev pub or_zero : Option ℕ → ℕ
or_zero none = 0
or_zero (some n) = n

abbrev pub one : Ratio
one = record { num = 1; den = 1 }

unfoldable pub responsiveness_of : ℕ → Ratio
responsiveness_of latency =
    if leb latency 0 then one else record { num = 7200000 - min latency 7200000; den = 7200000 }

unfoldable pub activity_of : ℕ → Ratio
activity_of message_count = at_most_one (record { num = message_count; den = 20 })

unfoldable pub sum_of : List (ℤ × ℕ) → ℕ
sum_of [] = 0
sum_of (entry ∷ counter) = entry.1 + sum_of counter

unfoldable pub dominant_of : List (ℤ × ℕ) → ℕ
dominant_of [] = 0
dominant_of (entry ∷ counter) = max entry.1 (dominant_of counter)

-- `1.0 - min(1.0, dominant / max(total, 1) - 0.5)`, which is 1.5 less the share, as a share is at most
-- 1. With three authors or more it may be above 1.
unfoldable pub balance_of : List (ℤ × ℕ) → Ratio
unfolding sum_of dominant_of
balance_of [] = record { num = 0; den = 1 }
balance_of (entry ∷ counter) =
    let total = max (sum_of (entry ∷ counter)) 1 in
    record { num = 3 * total - 2 * dominant_of (entry ∷ counter); den = 2 * total }

unfoldable pub friction_of : Sentiment → ℕ
friction_of negative = 700
friction_of mixed = 500
friction_of positive = 200
friction_of neutral = 200

abbrev pub thirds : Ratio → Ratio
thirds q = record { num = q.num; den = 3 * q.den }

-- `1.0 - friction`
abbrev pub calm_of : ℕ → Ratio
calm_of friction_score = record { num = 1000 - friction_score; den = 1000 }

unfoldable pub health_of : Ratio → Ratio → ℕ → Ratio
health_of responsive balance friction_score =
    at_most_one (thirds (add_ratio (add_ratio responsive balance) (calm_of friction_score)))

abbrev pub score_error : Error
score_error = invalid_payload (text "score: Input should be less than or equal to 1")

-- `AnalyticsSignal(...)`
unfoldable pub make_signal : SignalKind → ℕ → Text → List ℤ → Text → Result AnalyticsSignal
make_signal kind score summary evidence payload =
    if leb score 1000
    then ok (record {
      kind = kind;
      score = score;
      summary = summary;
      evidence_message_ids = evidence;
      payload = payload;
    })
    else err score_error

-- A list of calls, of which the first that raises ends it
abbrev pub onto_result {ℓ} : {A : Type ℓ} → Result A → Result (List A) → Result (List A)
onto_result (err e) rest = err e
onto_result (ok a) (err e) = err e
onto_result (ok a) (ok as') = ok (a ∷ as')

unfoldable pub collect {ℓ} : {A : Type ℓ} → List (Result A) → Result (List A)
collect [] = ok []
collect (r ∷ rs) = onto_result r (collect rs)

abbrev pub message_ids : List WindowMessagePayload → List ℤ
message_ids messages = map (λ (m : WindowMessagePayload). m.tg_message_id) messages

module _ (p : Patterns) (as_json : Payload → Text) where
  abbrev pub score_of : Ratio → ℕ
  score_of q = p.round3 q.num q.den

  unfoldable pub heuristic_signals :
      List WindowMessagePayload → MessageFeatureSet → Result (List AnalyticsSignal)
  heuristic_signals messages features =
      let evidence = message_ids (take 3 messages) in
      let latency = or_zero features.median_response_latency_sec in
      let responsive = responsiveness_of latency in
      let balance = balance_of features.author_activity in
      let friction_score = friction_of features.sentiment_hint in
      collect (
        make_signal responsiveness (score_of responsive)
          (text "Оценка построена по паузам между ответами собеседников.") evidence
          (as_json (latency_payload latency))
        ∷ make_signal initiative_balance (score_of balance)
            (text "Оценка построена по распределению активности между участниками окна.") evidence
            (as_json (activity_payload features.author_activity))
        ∷ make_signal topic_drift (p.round3 (topic_drift_score p messages) 1000)
            (text
              "Оценка построена по пересечению ключевых слов между первой и второй половиной окна.")
            evidence (as_json (keyword_payload features.keyword_candidates))
        ∷ make_signal friction (p.round3 friction_score 1000)
            (text "Оценка построена по тону сообщений и признакам негативной срочности.") evidence
            (as_json (sentiment_payload features.sentiment_hint))
        ∷ make_signal conversation_health (score_of (health_of responsive balance friction_score))
            (text "Сводная оценка на основе отзывчивости, баланса инициативы и уровня напряжения.")
            evidence (as_json no_payload)
        ∷ make_signal activity (score_of (activity_of features.message_count))
            (text "Оценка построена по количеству сообщений внутри окна.") evidence
            (as_json (count_payload features.message_count))
        ∷ [])
