-- ===== src/Orchestrator/Graph.antt =====
-- The analysis graph (graph.py): a chain of nodes with no branch, so a composition. The router and
-- the context loader are the arguments of `build_analysis_graph`; the features are computed by
-- `compute_features`, given the messages and the chat's type.
pub mod Normalize
pub mod Order
use personal_intelligence.Base.{
  ℕ, Option, List, Text, text, ℤ, is_empty, strip, if◌then◌else◌, ◌&&◌, ◌||◌, leb, not, Bool,
}
use personal_intelligence.Exec.{Error, Result, ok, err}
use personal_intelligence.Contracts.{
  ChatType, WindowMessagePayload, MessageFeatureSet, StructuredAnalysisResult, ProjectionCommand,
}
use Normalize.{normalize_messages}

-- What the graph is given from outside: the language model behind the router, the loader of the
-- context, which reads the database, and the features of a window.
pub record Externals : Type 1 where
  pub Context : Type 0
  pub context_loader : ℤ → List WindowMessagePayload → Result Context
  pub analyze :
      Text
      → List WindowMessagePayload
      → MessageFeatureSet
      → Context
      → Result StructuredAnalysisResult
  pub compute_features : List WindowMessagePayload → ChatType → MessageFeatureSet

-- The state that the graph is started with.
pub record AnalysisInput : Type 0 where
  pub source_event_id : Text
  pub source_window_id : Text
  pub tg_chat_id : ℤ
  pub chat_type : ChatType
  pub messages : List WindowMessagePayload
  pub trace_id : Option Text

pub data TaskFamily : Type 0 where
  summarize_window extract_structured : TaskFamily

-- The state that it ends with, as far as `_run_analysis` reads it.
pub record Analysis : Type 0 where
  pub features : MessageFeatureSet
  pub task_family : TaskFamily
  pub result : StructuredAnalysisResult
  pub projection_command : ProjectionCommand

-- No node reads the family: the edge to the extraction is unconditional.
unfoldable pub route_task_family : MessageFeatureSet → TaskFamily
route_task_family features =
    if leb features.message_count 1 && is_empty features.keyword_candidates
    then summarize_window
    else if (not (leb features.attachment_count 0) || not (leb features.reply_count 0))
        || not (leb features.forwarded_count 0)
    then extract_structured
    else extract_structured

abbrev pub no_evidence_summary : Text
no_evidence_summary = text "Недостаточно данных для доказательного резюме."

unfoldable pub validate_result : StructuredAnalysisResult → StructuredAnalysisResult
validate_result result =
    if is_empty (strip result.summary)
    then record result { summary = no_evidence_summary }
    else result

unfoldable pub build_projection :
    AnalysisInput
    → List WindowMessagePayload
    → MessageFeatureSet
    → StructuredAnalysisResult
    → ProjectionCommand
build_projection input messages features result = record {
  source_window_id = input.source_window_id;
  source_event_id = input.source_event_id;
  tg_chat_id = input.tg_chat_id;
  messages = messages;
  features = features;
  result = result;
  trace_id = input.trace_id;
}

module _ (x : Externals) where
  abbrev pub answered_node :
      AnalysisInput
      → List WindowMessagePayload
      → MessageFeatureSet
      → Result StructuredAnalysisResult
      → Result Analysis
  answered_node input messages features (err e) = err e
  answered_node input messages features (ok raw) =
      let result = validate_result raw in
      ok (record {
        features = features;
        task_family = route_task_family features;
        result = result;
        projection_command = build_projection input messages features result;
      })

  abbrev pub loaded_node :
      AnalysisInput
      → List WindowMessagePayload
      → MessageFeatureSet
      → Result x.Context
      → Result Analysis
  loaded_node input messages features (err e) = err e
  loaded_node input messages features (ok context) =
      answered_node input messages features
        (x.analyze input.source_window_id messages features context)

  abbrev extract_structured_node :
      AnalysisInput → List WindowMessagePayload → MessageFeatureSet → Result Analysis
  extract_structured_node input messages features =
      loaded_node input messages features (x.context_loader input.tg_chat_id messages)

  unfoldable pub run_graph : AnalysisInput → Result Analysis
  run_graph input =
      let messages = normalize_messages input.messages in
      extract_structured_node input messages (x.compute_features messages input.chat_type)
