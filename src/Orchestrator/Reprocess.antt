-- ===== src/Orchestrator/Reprocess.antt =====
-- `_handle_reprocess` of consumer.py: a stored window is analysed again under its own id, with the command
-- marked before its messages are decoded.
use personal_intelligence.Base.{
  ◌≡◌, refl, ap, ◌∙◌, true, Option, none, some, List, inl, inr, Bool-cases,
}
use personal_intelligence.Exec.{Error, Result-cases, ok, err, lift, ◌>>=◌}
use personal_intelligence.Contracts.{WindowMessagePayload, ReprocessWindowCommand}
use personal_intelligence.Store.Ledger
use personal_intelligence.Orchestrator.Coerce.{JsonTools, coerce_window_messages}
use personal_intelligence.Orchestrator.Graph.{Externals, AnalysisInput, run_graph}
use personal_intelligence.Orchestrator.State.{State, StoredWindow, consumer_name}
use personal_intelligence.Orchestrator.Consumer.{
  is_processed, mark_processed, reanalyse, handle_reprocess,
}
use personal_intelligence.Orchestrator.Consumer.Emit.{run_analysis_lem}
use personal_intelligence.Orchestrator.Delivery.{has_handled, marked}

module _ (json : JsonTools) (x : Externals) (command : ReprocessWindowCommand) where
  abbrev reprocess_input : StoredWindow → List WindowMessagePayload → AnalysisInput
  reprocess_input row messages = record {
    source_event_id = command.command_id;
    source_window_id = command.window_id;
    tg_chat_id = row.tg_chat_id;
    chat_type = row.chat_type;
    messages = messages;
    trace_id = command.trace_id;
  }

  reanalyse_fails :
      (row : Option StoredWindow) (s : State) (e : Error)
      → (reanalyse json x command row s).0 ≡ err e
      → (reanalyse json x command row s).1 ≡ marked command.command_id s
  unfolding mark_processed lift ◌>>=◌
  reanalyse_fails none s e = λ h. absurd cc
  reanalyse_fails (some row) s e = elim (Result-cases (coerce_window_messages json row.messages)) [
    | inl (e', refused) ↦ rw refused (λ h. refl)
    | inr (messages, decoded) ↦ rw decoded (
        rw (run_analysis_lem x (reprocess_input row messages) (marked command.command_id s))
          (elim (Result-cases (run_graph x (reprocess_input row messages))) [
            | inl (e', failed) ↦ rw failed (λ h. refl)
            | inr (analysis, done) ↦ rw done (λ h. absurd cc)
          ]))
  ]

  skips_handled :
      (s : State)
      → has_handled command.command_id s ≡ true
      → handle_reprocess json x command s ≡ (ok tt, s)
  unfolding handle_reprocess is_processed ◌>>=◌
  skips_handled s seen = rw seen refl

  leaves_mark :
      (s : State) (e : Error)
      → (handle_reprocess json x command s).0 ≡ err e
      → (handle_reprocess json x command s).1 ≡ marked command.command_id s
  unfolding handle_reprocess is_processed ◌>>=◌
  leaves_mark s e = elim (Bool-cases (has_handled command.command_id s)) [
    | inl seen ↦ rw seen (λ h. absurd cc)
    | inr fresh ↦ rw fresh (reanalyse_fails (s.analysis_windows command.window_id) s e)
  ]

  -- If a reprocessing raises, because the stored messages do not decode or because the analysis fails,
  -- the command is marked and nothing else has changed, nothing is published; and a later delivery of the
  -- command returns and changes nothing.
  pub reprocess_failure_loses_command :
      (s : State) (e : Error)
      → (handle_reprocess json x command s).0 ≡ err e
      → let after = (handle_reprocess json x command s).1 in
        (after ≡ marked command.command_id s)
        × (handle_reprocess json x command after ≡ (ok tt, after))
  reprocess_failure_loses_command s e h =
      let left = leaves_mark s e h in
      (
        left,
        skips_handled (handle_reprocess json x command s).1 (
            ap (has_handled command.command_id) left
            ∙ Ledger.is_processed-mark_processed consumer_name command.command_id s.processed),
      )
