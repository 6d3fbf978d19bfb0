-- ===== src/Orchestrator/Consumer/Emit.antt =====
-- What an analysis publishes, and what a flush makes of the window.
use mathlib.Core.List.{append-nil, append_assoc}
use mathlib.Core.Path.{fun_ext}
use personal_intelligence.Base.{
  ℕ, suc, ◌≡◌, refl, ap, ◌∙◌, Option, List, [], ◌∷◌, ◌++◌, map, Text, ℤ, Bool-cases, ==_refl,
  length-append, arith, length, ◌+◌, inl, inr, ◌==◌, int_eq,
}
use personal_intelligence.Exec.{Result-cases, Result, ok, err, ◌>>=◌, for_each}
use personal_intelligence.Contracts.{ChatType, WindowMessagePayload, AnalyticsSignal}
use personal_intelligence.Store.RedisList
use personal_intelligence.Store.RedisList.{RedisList, absent}
use personal_intelligence.Orchestrator.Settings.{Settings}
use personal_intelligence.Orchestrator.Graph.{Externals, AnalysisInput, Analysis, run_graph}
use personal_intelligence.Orchestrator.State.{
  Published, preprocessed, completed, signalled, projection, State, update,
}
use personal_intelligence.Orchestrator.Consumer.{
  publish, load_window_messages, delete_window, build_window_id, run_analysis, flush_window,
  store_window_message, window_ttl,
}

publish_each :
    (g : AnalyticsSignal → Published) (xs : List AnalyticsSignal) (s : State)
    → for_each (λ signal. publish (g signal)) xs s
      ≡ (ok tt, record s { published = s.published ++ map g xs })
unfolding for_each publish ◌>>=◌
publish_each g [] s = rw append-nil
publish_each g (x ∷ xs) s =
    publish_each g xs (record s { published = s.published ++ g x ∷ [] }) ∙ rw append_assoc

abbrev pub signal_event : AnalysisInput → AnalyticsSignal → Published
signal_event input signal = signalled (record {
  source_window_id = input.source_window_id;
  tg_chat_id = input.tg_chat_id;
  signal = signal;
  trace_id = input.trace_id;
})

abbrev pub emitted : AnalysisInput → Analysis → List Published
emitted input analysis =
    preprocessed (record {
      source_event_id = input.source_event_id;
      tg_chat_id = input.tg_chat_id;
      source_window_id = input.source_window_id;
      messages = input.messages;
      features = analysis.features;
      trace_id = input.trace_id;
    })
    ∷ completed (record {
      source_event_id = input.source_event_id;
      tg_chat_id = input.tg_chat_id;
      source_window_id = input.source_window_id;
      result = analysis.result;
      trace_id = input.trace_id;
    })
    ∷ (map (signal_event input) analysis.result.analytics_signals
        ++ projection analysis.projection_command ∷ [])

-- How a run of the graph ends, as a change of the state.
abbrev pub concluded : AnalysisInput → State → Result Analysis → Result (Unit {0}) × State
concluded input s (err e) = (err e, s)
concluded input s (ok analysis) =
    (ok tt, record s { published = s.published ++ emitted input analysis })

pub run_analysis_lem :
    (x : Externals) (input : AnalysisInput) (s : State)
    → run_analysis x input s ≡ concluded input s (run_graph x input)
unfolding run_analysis publish ◌>>=◌
run_analysis_lem x input s = elim (Result-cases (run_graph x input)) [
  | inl (e, failed) ↦ rw failed
  | inr (analysis, done) ↦
      rw done (
        rw (publish_each (signal_event input) analysis.result.analytics_signals)
          (simp append_assoc))
]

module _ (x : Externals) (uuid : ℕ → Text) (chat : ℤ) (source : Text) (chat_type : ChatType)
    (trace_id : Option Text) where
  abbrev pub window_input : State → List WindowMessagePayload → AnalysisInput
  window_input s messages = record {
    source_event_id = source;
    source_window_id = uuid s.uuids_drawn;
    tg_chat_id = chat;
    chat_type = chat_type;
    messages = messages;
    trace_id = trace_id;
  }

  -- A failed analysis leaves the window as it was; a finished one publishes and empties it.
  abbrev pub flushed :
      State → List WindowMessagePayload → Result Analysis → Result (Unit {0}) × State
  flushed s messages (err e) = (err e, record s { uuids_drawn = suc s.uuids_drawn })
  flushed s messages (ok analysis) = (
    ok tt,
    record s {
      windows = update s.windows chat absent;
      published = s.published ++ emitted (window_input s messages) analysis;
      uuids_drawn = suc s.uuids_drawn;
    },
  )

  pub flush_window_lem :
      (s : State) (m : WindowMessagePayload) (ms : List WindowMessagePayload)
      → RedisList.lrange s.clock (s.windows chat) ≡ m ∷ ms
      → flush_window x uuid chat source chat_type trace_id s
        ≡ flushed s (m ∷ ms) (run_graph x (window_input s (m ∷ ms)))
  unfolding flush_window load_window_messages build_window_id delete_window ◌>>=◌
  flush_window_lem s m ms e = elim (Result-cases (run_graph x (window_input s (m ∷ ms)))) [
    | inl (error, failed) ↦ rw (e, run_analysis_lem, failed)
    | inr (analysis, done) ↦ rw (e, run_analysis_lem, done)
  ]

  pub flush_window-empty :
      (s : State)
      → RedisList.lrange s.clock (s.windows chat) ≡ []
      → flush_window x uuid chat source chat_type trace_id s ≡ (ok tt, s)
  unfolding flush_window load_window_messages ◌>>=◌
  flush_window-empty s e = rw e

  -- What a flush leaves alone.
  pub processed-flush_window :
      (s : State) → (flush_window x uuid chat source chat_type trace_id s).1.processed ≡ s.processed
  processed-flush_window s = from_items (RedisList.lrange s.clock (s.windows chat)) refl
    where
      from_items :
          (items : List WindowMessagePayload)
          → RedisList.lrange s.clock (s.windows chat) ≡ items
          → (flush_window x uuid chat source chat_type trace_id s).1.processed ≡ s.processed
      from_items [] e = rw (flush_window-empty s e)
      from_items (m ∷ ms) e =
          rw (flush_window_lem s m ms e)
            (elim (Result-cases (run_graph x (window_input s (m ∷ ms)))) [
              | inl (error, failed) ↦ rw failed
              | inr (analysis, done) ↦ rw done
            ])

  pub clock-flush_window :
      (s : State) → (flush_window x uuid chat source chat_type trace_id s).1.clock ≡ s.clock
  clock-flush_window s = from_items (RedisList.lrange s.clock (s.windows chat)) refl
    where
      from_items :
          (items : List WindowMessagePayload)
          → RedisList.lrange s.clock (s.windows chat) ≡ items
          → (flush_window x uuid chat source chat_type trace_id s).1.clock ≡ s.clock
      from_items [] e = rw (flush_window-empty s e)
      from_items (m ∷ ms) e =
          rw (flush_window_lem s m ms e)
            (elim (Result-cases (run_graph x (window_input s (m ∷ ms)))) [
              | inl (error, failed) ↦ rw failed
              | inr (analysis, done) ↦ rw done
            ])

  -- A flush that returns has emptied the window.
  pub lrange-flush_window :
      (s : State)
      → (flush_window x uuid chat source chat_type trace_id s).0 ≡ ok tt
      → let after = (flush_window x uuid chat source chat_type trace_id s).1 in
        RedisList.lrange after.clock (after.windows chat) ≡ []
  lrange-flush_window s = from_items (RedisList.lrange s.clock (s.windows chat)) refl
    where
      from_items :
          (items : List WindowMessagePayload)
          → RedisList.lrange s.clock (s.windows chat) ≡ items
          → (flush_window x uuid chat source chat_type trace_id s).0 ≡ ok tt
          → RedisList.lrange
              (flush_window x uuid chat source chat_type trace_id s).1.clock
              ((flush_window x uuid chat source chat_type trace_id s).1.windows chat)
            ≡ []
      from_items [] e = rw (flush_window-empty s e) (λ _. e)
      from_items (m ∷ ms) e =
          rw (flush_window_lem s m ms e)
            (elim (Result-cases (run_graph x (window_input s (m ∷ ms)))) [
              | inl (error, failed) ↦ rw failed (λ h. cc)
              | inr (analysis, done) ↦
                  rw done (λ _. rw (==_refl chat) (RedisList.lrange-absent s.clock))
            ])

module _ (settings : Settings) (chat : ℤ) (p : WindowMessagePayload) where
  abbrev pub extended : State → RedisList WindowMessagePayload
  extended s =
      RedisList.expire s.clock (window_ttl settings) (RedisList.rpush s.clock p (s.windows chat))

  -- The state with the message pushed and the time to live set anew.
  abbrev pub stored : State → State
  stored s = record s { windows = update s.windows chat (extended s) }

  pub length-extended :
      (s : State)
      → length (RedisList.lrange s.clock (extended s))
        ≡ length (RedisList.lrange s.clock (s.windows chat)) + 1
  length-extended s =
      rw
        (RedisList.lrange-expire-rpush s.clock (window_ttl settings) p (s.windows chat)
          (omega arith))
        (length-append (RedisList.lrange s.clock (s.windows chat)) (p ∷ []))

  twice_updated :
      (w : ℤ → RedisList WindowMessagePayload) (a b : RedisList WindowMessagePayload)
      → update (update w chat a) chat b ≡ update w chat b
  twice_updated w a b =
      fun_ext λ j. elim (Bool-cases (chat == j)) [ inl here ↦ rw here | inr away ↦ rw away ]

  pub store_window_message_lem :
      (s : State)
      → store_window_message settings chat p s
        ≡ (ok (length (RedisList.lrange s.clock (s.windows chat)) + 1), stored s)
  unfolding store_window_message ◌>>=◌
  store_window_message_lem s =
      let pushed = RedisList.rpush s.clock p (s.windows chat) in
      rw (==_refl chat) (
        rw (twice_updated s.windows pushed (extended s))
          (ap (λ n. (ok n, stored s)) (length-extended s)))
