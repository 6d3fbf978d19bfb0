-- ===== src/Orchestrator/Router/Heuristic.antt =====
-- `_heuristic_analysis` and `_heuristic_task_title` of llm.py.
use personal_intelligence.Base.{
  Bool, false, none, some, List, [], ◌∷◌, ◌++◌, map, length, take, is_empty, Text, text, ℤ, pos,
  leb, strip, rstrip, squeeze, dots, if◌then◌else◌,
}
use personal_intelligence.Exec.{Result, ok, err}
use personal_intelligence.Contracts.{
  fact, contact, StructuredClaim, StructuredTask, AnalyticsSignal, StructuredAnalysisResult,
  WindowMessagePayload, MessageFeatureSet,
}
use personal_intelligence.Orchestrator.Features.{Patterns}
use personal_intelligence.Orchestrator.Summary.{summarize_messages}
use personal_intelligence.Orchestrator.Router.Signals.{Payload, heuristic_signals}

unfoldable pub heuristic_task_title : Text → Text
heuristic_task_title content =
    let cleaned = squeeze false (strip content) in
    if is_empty cleaned
    then text "Нужен follow-up по сообщению"
    else if leb (length cleaned) 84
    then text "Нужно проверить: " ++ cleaned
    else text "Нужно проверить: " ++ rstrip (take 81 cleaned) ++ dots

abbrev pub first_message_id : List WindowMessagePayload → ℤ
first_message_id [] = pos 0
first_message_id (m ∷ ms) = m.tg_message_id

abbrev pub by_preprocessing : Text
by_preprocessing = text "Извлечено детерминированным preprocessing без семантической интерпретации."

abbrev pub email_claim : ℤ → Text → StructuredClaim
email_claim evidence email = record {
  kind = contact;
  subject = none;
  predicate = text "shared_email";
  object = some email;
  claim = text "В переписке был передан адрес электронной почты: " ++ email ++ text ".";
  confidence = 720;
  evidence_message_ids = evidence ∷ [];
  caveats = by_preprocessing ∷ [];
}

abbrev pub phone_claim : ℤ → Text → StructuredClaim
phone_claim evidence phone = record {
  kind = contact;
  subject = none;
  predicate = text "shared_phone";
  object = some phone;
  claim = text "В переписке был передан номер телефона: " ++ phone ++ text ".";
  confidence = 700;
  evidence_message_ids = evidence ∷ [];
  caveats = by_preprocessing ∷ [];
}

abbrev pub link_claim : ℤ → Text → StructuredClaim
link_claim evidence link = record {
  kind = fact;
  subject = none;
  predicate = text "shared_link";
  object = some link;
  claim = text "В переписке была отправлена ссылка: " ++ link ++ text ".";
  confidence = 680;
  evidence_message_ids = evidence ∷ [];
  caveats = text "Ссылка встречается в текущем окне сообщений." ∷ [];
}

unfoldable pub heuristic_claims : ℤ → MessageFeatureSet → List StructuredClaim
heuristic_claims evidence features =
    map (email_claim evidence) features.emails
    ++ (map (phone_claim evidence) features.phones
        ++ map (link_claim evidence) (take 3 features.links))

abbrev pub hinted_task : WindowMessagePayload → StructuredTask
hinted_task m = record {
  title = heuristic_task_title m.content;
  description = none;
  priority = 3;
  due_at = none;
  confidence = 550;
  evidence_message_ids = m.tg_message_id ∷ [];
  caveats = text "Задача выделена эвристически, без подтверждения внешней LLM." ∷ [];
}

-- The loop over the messages, with the tasks that it has so far: it ends at the third.
unfoldable pub tasks_onto :
    (Text → Bool) → List WindowMessagePayload → List StructuredTask → List StructuredTask
unfolding heuristic_task_title
tasks_onto has_hint [] tasks = tasks
tasks_onto has_hint (m ∷ ms) tasks =
    let skipped = tasks_onto has_hint ms tasks in
    let added = tasks ++ hinted_task m ∷ [] in
    let rest = tasks_onto has_hint ms added in
    if has_hint m.content then (if leb 3 (length added) then added else rest) else skipped

module _ (p : Patterns) (as_json : Payload → Text) (has_hint : Text → Bool) where
  abbrev pub with_signals :
      Text
      → List WindowMessagePayload
      → MessageFeatureSet
      → Result (List AnalyticsSignal)
      → Result StructuredAnalysisResult
  with_signals window_id messages features (err e) = err e
  with_signals window_id messages features (ok signals) = ok (record {
    source_window_id = window_id;
    summary = summarize_messages messages 360;
    topics = take 5 features.keyword_candidates;
    participants = features.participant_tg_ids;
    claims = heuristic_claims (first_message_id messages) features;
    tasks = tasks_onto has_hint messages [];
    analytics_signals = signals;
    confidence = 580;
    caveats = text "Результат сформирован без ответа внешней LLM." ∷ [];
  })

  unfoldable pub heuristic_analysis :
      Text → List WindowMessagePayload → MessageFeatureSet → Result StructuredAnalysisResult
  heuristic_analysis window_id messages features =
      with_signals window_id messages features (heuristic_signals p as_json messages features)
