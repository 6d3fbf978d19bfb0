-- ===== src/Orchestrator/Router/Wiring.antt =====
-- The graph of graph.py with the router of llm.py and the features of preprocessing.py in their places,
-- as `main` puts them together; the context is still loaded from outside.
use personal_intelligence.Base.{◌≡◌, List, ◌∷◌, is_empty, strip, text, ℤ, Bool-cases, inl, inr}
use personal_intelligence.Exec.{Result, ok, err, Holds}
use personal_intelligence.Contracts.{
  WindowMessagePayload, StructuredAnalysisResult, MessageFeatureSet,
}
use personal_intelligence.Orchestrator.Features.{chat_type_name, compute_message_features}
use personal_intelligence.Orchestrator.Graph.{
  Externals, AnalysisInput, Analysis, validate_result, build_projection, answered_node, loaded_node,
  run_graph,
}
use personal_intelligence.Orchestrator.Graph.Normalize.{normalize_messages}
use personal_intelligence.Orchestrator.Router.Signals.{message_ids}
use personal_intelligence.Orchestrator.Router.Analyze.{Client, Tools, analyze}
use personal_intelligence.Orchestrator.Router.Grounding.{IsGrounded, analyze-IsGrounded}

module _ (tools : Tools) {Loaded : Type 0} (clients : List (Client Loaded))
    (load : ℤ → List WindowMessagePayload → Result Loaded) where
  abbrev pub graph_externals : Externals
  graph_externals = record {
    Context = Loaded;
    context_loader = load;
    analyze = λ window_id messages features context.
        analyze tools window_id messages features context clients;
    compute_features = λ messages chat_type.
        compute_message_features tools.patterns messages (chat_type_name chat_type)
          (text "rolling");
  }

  -- What is projected cites what is projected with it.
  abbrev pub IsGroundedAnalysis : Analysis → Type 0
  IsGroundedAnalysis a =
      IsGrounded (message_ids a.projection_command.messages) a.projection_command.result

  validate_result-IsGrounded :
      (valid : List ℤ) (r : StructuredAnalysisResult)
      → IsGrounded valid r
      → IsGrounded valid (validate_result r)
  unfolding validate_result
  validate_result-IsGrounded valid r h = elim (Bool-cases (is_empty (strip r.summary))) [
    | inl blank ↦ rw blank (record {
      claims_cited = h.claims_cited;
      tasks_cited = h.tasks_cited;
      signals_in = h.signals_in;
    })
    | inr filled ↦ rw filled h
  ]

  answered_node-IsGrounded :
      (input : AnalysisInput) (messages : List WindowMessagePayload) (features : MessageFeatureSet)
      (answer : Result StructuredAnalysisResult)
      → Holds (IsGrounded (message_ids messages)) answer
      → Holds IsGroundedAnalysis (answered_node graph_externals input messages features answer)
  unfolding build_projection
  answered_node-IsGrounded input messages features (err e) h = tt
  answered_node-IsGrounded input messages features (ok r) h =
      validate_result-IsGrounded (message_ids messages) r h

  loaded_node-IsGrounded :
      (input : AnalysisInput) (messages : List WindowMessagePayload) (first : WindowMessagePayload)
      (rest : List WindowMessagePayload) (features : MessageFeatureSet) (context : Result Loaded)
      → messages ≡ first ∷ rest
      → Holds IsGroundedAnalysis (loaded_node graph_externals input messages features context)
  loaded_node-IsGrounded input messages first rest features (err e) window = tt
  loaded_node-IsGrounded input messages first rest features (ok context) window =
      answered_node-IsGrounded input messages features _ (
        rw window
          (analyze-IsGrounded tools input.source_window_id first rest features context clients))

  -- If the window is not empty once it is in order and without repetition, what the graph hands to the
  -- projector is grounded in the messages that it hands on with it, whatever the providers answer.
  pub run_graph-IsGrounded :
      (input : AnalysisInput) (first : WindowMessagePayload) (rest : List WindowMessagePayload)
      → normalize_messages input.messages ≡ first ∷ rest
      → Holds IsGroundedAnalysis (run_graph graph_externals input)
  unfolding run_graph
  run_graph-IsGrounded input first rest window =
      let messages = normalize_messages input.messages in
      loaded_node-IsGrounded input messages first rest _ (load input.tg_chat_id messages) window
