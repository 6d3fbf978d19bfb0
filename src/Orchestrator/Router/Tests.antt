-- ===== src/Orchestrator/Router/Tests.antt =====
-- The router and the features at concrete windows, and the theorems there.
use native.Mathlib.Nat.{le-div_iff_mul-le, div-lt_iff_lt-mul}
use personal_intelligence.Base.{
  ℕ, suc, ◌*◌, ◌/◌, ◌≡◌, refl, true, false, none, some, List, [], ◌∷◌, text, ℤ, pos, IsRounding,
  length, arith, same_int, leb_int,
}
use personal_intelligence.Exec.{ok, err, Holds, Returns, invalid_payload}
use personal_intelligence.Contracts.{private, WindowMessagePayload, StructuredAnalysisResult, fact}
use personal_intelligence.Orchestrator.Features.{
  Patterns, count_up, count_onto, sender_ids, compute_message_features,
}
use personal_intelligence.Orchestrator.Counting.{
  ArePositive, count_of, messages_of, sent_messages, author_activity_lem,
}
use personal_intelligence.Orchestrator.Graph.{AnalysisInput, run_graph}
use personal_intelligence.Orchestrator.Graph.Normalize.{
  normalize_messages, sort_messages, insert_message, dedup, key_le,
}
use personal_intelligence.Orchestrator.Router.Signals.{sum_of, message_ids}
use personal_intelligence.Orchestrator.Router.Sanitize.{safe_claims}
use personal_intelligence.Orchestrator.Router.Analyze.{Client, Tools, analyze}
use personal_intelligence.Orchestrator.Router.Grounding.{IsGrounded, analyze-IsGrounded}
use personal_intelligence.Orchestrator.Router.Fallback.{analyze-Returns}
use personal_intelligence.Orchestrator.Router.Wiring.{
  graph_externals, IsGroundedAnalysis, run_graph-IsGrounded,
}

-- To the thousandth below
abbrev floor3 : ℕ → ℕ → ℕ
floor3 n d = 1000 * n / d

floor3-IsRounding : IsRounding floor3
floor3-IsRounding = record {
  at_most = λ n d k h positive_den. omega (
    arith,
    (div-lt_iff_lt-mul {k = d} {x = 1000 * n} {y = suc k} positive_den).1
        (omega (arith, h, positive_den)),
  );
  at_least =
      λ n d k h positive_den. (le-div_iff_mul-le {k = d} {x = k} {y = 1000 * n} positive_den).1 h;
}

abbrev patterns : Patterns
patterns = record {
  handles = λ t. [];
  links = λ t. [];
  emails = λ t. [];
  phones = λ t. [];
  words = λ t. [];
  compact_phone = λ t. t;
  casefold = λ t. t;
  is_digit = λ t. false;
  round3 = floor3;
}

abbrev from_answer : StructuredAnalysisResult
from_answer = record {
  source_window_id = [];
  summary = text "Встреча";
  topics = [];
  participants = [];
  claims =
      record {
        kind = fact;
        subject = none;
        predicate = text "meets";
        object = none;
        claim = text "Встреча в три";
        confidence = 900;
        evidence_message_ids = pos 2 ∷ pos 77 ∷ [];
        caveats = [];
      }
      ∷ [];
  tasks = [];
  analytics_signals = [];
  confidence = 800;
  caveats = [];
}

abbrev tools : Tools
tools = record {
  patterns = patterns;
  as_json = λ payload. text "{}";
  has_task_hint = λ t. true;
  find_json = λ t. some t;
  decode = λ json. ok from_answer;
  analysis_output_language = text "ru";
}

abbrev answering : Client ℕ
answering = record { is_available = true; complete_text = λ request. ok (text "{}") }

abbrev absent_client : Client ℕ
absent_client = record { is_available = false; complete_text = λ request. err (invalid_payload []) }

abbrev said : ℤ → ℤ → ℕ → WindowMessagePayload
said number sender sent = record {
  tg_message_id = number;
  tg_sender_id = some sender;
  tg_sender_name = none;
  tg_sender_username = none;
  content = text "hi";
  reply_to_message_id = none;
  media_type = none;
  is_forwarded = false;
  occurred_at = sent;
}

abbrev dialogue : List WindowMessagePayload
dialogue = said (pos 1) (pos 100) 5 ∷ said (pos 2) (pos 200) 8 ∷ []

-- Three authors, each with one message
abbrev meeting : List WindowMessagePayload
meeting = said (pos 1) (pos 100) 5 ∷ said (pos 2) (pos 200) 8 ∷ said (pos 3) (pos 300) 9 ∷ []

foreign_evidence_goes : safe_claims (pos 1 ∷ pos 3 ∷ []) from_answer.claims ≡ []
unfolding safe_claims same_int
foreign_evidence_goes = refl

answers_are_safe : Holds (IsGrounded (message_ids dialogue)) (
    analyze tools
      (text "w1")
      dialogue
      (compute_message_features patterns dialogue (text "private") (text "rolling"))
      0
      (absent_client ∷ answering ∷ []))
answers_are_safe =
    analyze-IsGrounded tools (text "w1") (said (pos 1) (pos 100) 5) (said (pos 2) (pos 200) 8 ∷ [])
      (compute_message_features patterns dialogue (text "private") (text "rolling")) 0
      (absent_client ∷ answering ∷ [])

analyze-Returns_example : Returns (
    analyze tools
      (text "w1")
      dialogue
      (compute_message_features patterns dialogue (text "private") (text "rolling"))
      0
      (absent_client ∷ answering ∷ []))
unfolding compute_message_features count_onto count_up sender_ids same_int
analyze-Returns_example =
    analyze-Returns tools (text "w1") dialogue 0 (text "private") (text "rolling")
      (absent_client ∷ answering ∷ []) floor3-IsRounding (omega arith)

abbrev input : AnalysisInput
input = record {
  source_event_id = text "e1";
  source_window_id = text "w1";
  tg_chat_id = pos 7;
  chat_type = private;
  messages = dialogue;
  trace_id = none;
}

run_graph-IsGrounded_example :
    Holds
      (IsGroundedAnalysis tools (answering ∷ []) (λ chat messages. ok 0))
      (run_graph (graph_externals tools (answering ∷ []) (λ chat messages. ok 0)) input)
unfolding normalize_messages sort_messages insert_message dedup key_le same_int leb_int
run_graph-IsGrounded_example =
    run_graph-IsGrounded tools (answering ∷ []) (λ chat messages. ok 0) input
      (said (pos 1) (pos 100) 5) (said (pos 2) (pos 200) 8 ∷ []) refl

author_activity_lem_example :
    let activity =
      (compute_message_features patterns meeting (text "group") (text "rolling")).author_activity in
    ((user : ℤ) → count_of user activity ≡ length (messages_of user meeting))
    × ((sum_of activity ≡ length (sent_messages meeting)) × ArePositive activity)
author_activity_lem_example = author_activity_lem patterns meeting (text "group") (text "rolling")

three_authors :
    (compute_message_features patterns meeting (text "group") (text "rolling")).author_activity
    ≡ (pos 100, 1) ∷ (pos 200, 1) ∷ (pos 300, 1) ∷ []
unfolding compute_message_features count_onto count_up sender_ids same_int
three_authors = refl
