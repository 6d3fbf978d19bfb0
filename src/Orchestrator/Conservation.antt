-- ===== src/Orchestrator/Conservation.antt =====
-- No message is lost, duplicated or reordered between its acceptance and the event that hands its
-- window on: what was published for a chat, followed by the open window, is a log to which a handler
-- only appends. `_handle_message` and `_flush_window` of consumer.py.
use mathlib.Core.List.{append-nil, append_assoc}
use mathlib.Core.Path.{subst}
use personal_intelligence.Base.{
  ℕ, ◌≡◌, refl, sym, ◌∙◌, Bool, true, false, Option, none, some, List, [], ◌∷◌, ◌++◌, map, Text, ℤ,
  arith, ◌==◌, int_eq, if◌then◌else◌, leb, inl, inr, Bool-cases, get_last?, ==_refl, ==_eq,
}
use personal_intelligence.Exec.{Result, ok, err, Exec, pure, when, ◌>>=◌}
use personal_intelligence.Contracts.{
  ChatType, TelegramMessageEvent, WindowMessagePayload, AnalyticsSignal,
}
use personal_intelligence.Store.RedisList
use personal_intelligence.Store.RedisList.{RedisList, absent, lrange-expire-rpush, lrange-absent}
use personal_intelligence.Orchestrator.Settings.{Settings}
use personal_intelligence.Orchestrator.Graph.{Externals, AnalysisInput, Analysis}
use personal_intelligence.Orchestrator.State.{
  Published, preprocessed, completed, signalled, projection, State,
}
use personal_intelligence.Orchestrator.Consumer.{
  store_window_message, flush_window, roll_over, accept_message, payload_of, window_ttl,
  load_window_messages,
}
use personal_intelligence.Orchestrator.Consumer.Emit.{
  signal_event, emitted, flushed, flush_window_lem, flush_window-empty, stored,
  store_window_message_lem,
}

-- The messages of a chat that were handed on, in order.
unfoldable pub handed_on : ℤ → List Published → List WindowMessagePayload
handed_on chat [] = []
handed_on chat (preprocessed e ∷ ps) =
    let rest = handed_on chat ps in if e.tg_chat_id == chat then e.messages ++ rest else rest
handed_on chat (_ ∷ ps) = handed_on chat ps

-- Those, and the open window.
unfoldable pub message_log : ℤ → State → List WindowMessagePayload
message_log chat s = handed_on chat s.published ++ RedisList.lrange s.clock (s.windows chat)

module _ (chat : ℤ) where
  handed_on-append :
      (ps qs : List Published) → handed_on chat (ps ++ qs) ≡ handed_on chat ps ++ handed_on chat qs
  unfolding handed_on
  handed_on-append [] qs = refl
  handed_on-append (preprocessed e ∷ ps) qs = elim (Bool-cases (e.tg_chat_id == chat)) [
    | inl here ↦ rw (here, handed_on-append ps qs) (sym (append_assoc e.messages _ _))
    | inr away ↦ rw (away, handed_on-append ps qs)
  ]
  handed_on-append (completed e ∷ ps) qs = handed_on-append ps qs
  handed_on-append (signalled e ∷ ps) qs = handed_on-append ps qs
  handed_on-append (projection e ∷ ps) qs = handed_on-append ps qs

  handed_on-signals :
      (input : AnalysisInput) (xs : List AnalyticsSignal) (qs : List Published)
      → handed_on chat (map (signal_event input) xs ++ qs) ≡ handed_on chat qs
  unfolding handed_on
  handed_on-signals input [] qs = refl
  handed_on-signals input (x ∷ xs) qs = handed_on-signals input xs qs

  handed_on-emitted :
      (input : AnalysisInput) (analysis : Analysis)
      → handed_on chat (emitted input analysis)
        ≡ (if input.tg_chat_id == chat then input.messages else [])
  unfolding handed_on
  handed_on-emitted input analysis =
      rw (handed_on-signals input analysis.result.analytics_signals)
        (elim (Bool-cases (input.tg_chat_id == chat)) [
          | inl here ↦ rw here (append-nil input.messages)
          | inr away ↦ rw away
        ])

module _ (x : Externals) (uuid : ℕ → Text) (chat : ℤ) (source : Text) (chat_type : ChatType)
    (trace_id : Option Text) where
  log-flushed_self :
      (s : State) (m : WindowMessagePayload) (ms : List WindowMessagePayload) (r : Result Analysis)
      → RedisList.lrange s.clock (s.windows chat) ≡ m ∷ ms
      → message_log chat (flushed x uuid chat source chat_type trace_id s (m ∷ ms) r).1
        ≡ message_log chat s
  unfolding message_log
  log-flushed_self s m ms (err e) h = refl
  log-flushed_self s m ms (ok analysis) h =
      rw (handed_on-append, handed_on-emitted, ==_refl chat, lrange-absent, h) (append-nil _)

  log-flushed_ne :
      (c : ℤ) (s : State) (ms : List WindowMessagePayload) (r : Result Analysis)
      → (chat == c) ≡ false
      → message_log c (flushed x uuid chat source chat_type trace_id s ms r).1 ≡ message_log c s
  unfolding message_log
  log-flushed_ne c s ms (err e) away = refl
  log-flushed_ne c s ms (ok analysis) away =
      rw (handed_on-append, handed_on-emitted, away, append-nil)

  log-flushed :
      (c : ℤ) (s : State) (m : WindowMessagePayload) (ms : List WindowMessagePayload)
      (r : Result Analysis)
      → RedisList.lrange s.clock (s.windows chat) ≡ m ∷ ms
      → message_log c (flushed x uuid chat source chat_type trace_id s (m ∷ ms) r).1
        ≡ message_log c s
  log-flushed c s m ms r h = elim (Bool-cases (chat == c)) [
    | inl here ↦
        subst
          (λ c.
            message_log c (flushed x uuid chat source chat_type trace_id s (m ∷ ms) r).1
            ≡ message_log c s)
          (==_eq chat c here) (log-flushed_self s m ms r h)
    | inr away ↦ log-flushed_ne c s (m ∷ ms) r away
  ]

  -- A flush moves the window from Redis to the streams, and loses nothing when it fails.
  pub log-flush_window :
      (c : ℤ) (s : State)
      → message_log c (flush_window x uuid chat source chat_type trace_id s).1 ≡ message_log c s
  log-flush_window c s = from_items (RedisList.lrange s.clock (s.windows chat)) refl
    where
      from_items :
          (items : List WindowMessagePayload)
          → RedisList.lrange s.clock (s.windows chat) ≡ items
          → message_log c (flush_window x uuid chat source chat_type trace_id s).1 ≡ message_log c s
      from_items [] e = rw (flush_window-empty x uuid chat source chat_type trace_id s e)
      from_items (m ∷ ms) e =
          rw (flush_window_lem x uuid chat source chat_type trace_id s m ms e)
            (log-flushed c s m ms _ e)

module _ (settings : Settings) (p : WindowMessagePayload) where
  log-stored_self :
      (chat : ℤ) (s : State)
      → message_log chat (stored settings chat p s) ≡ message_log chat s ++ p ∷ []
  unfolding message_log
  log-stored_self chat s = rw (==_refl chat) (
      rw (lrange-expire-rpush s.clock (window_ttl settings) p (s.windows chat) (omega arith))
        (sym (append_assoc (handed_on chat s.published) _ _)))

  log-stored_ne :
      (chat c : ℤ) (s : State)
      → (chat == c) ≡ false
      → message_log c (stored settings chat p s) ≡ message_log c s
  unfolding message_log
  log-stored_ne chat c s away = rw away

module _ (settings : Settings) (x : Externals) (uuid : ℕ → Text)
    (event : TelegramMessageEvent) where
  abbrev pub flush_of_event : Exec State Unit
  flush_of_event =
      flush_window x uuid event.tg_chat_id event.event_id event.chat_type event.trace_id

  abbrev pub store_and_flush : Exec State Unit
  store_and_flush = do
    size ← store_window_message settings event.tg_chat_id (payload_of event)
    when (leb settings.analysis_window_size size) flush_of_event

  log-when_flush :
      (c : ℤ) (b : Bool) (s : State) → message_log c (when b flush_of_event s).1 ≡ message_log c s
  unfolding pure
  log-when_flush c true s = log-flush_window x uuid _ _ _ _ c s
  log-when_flush c false s = refl

  pub log-roll_over :
      (c : ℤ) (p : WindowMessagePayload) (last : Option WindowMessagePayload) (s : State)
      → message_log c (roll_over settings x uuid event p last s).1 ≡ message_log c s
  unfolding pure
  log-roll_over c p none s = refl
  log-roll_over c p (some last) s = log-when_flush c _ s

  pub log-store_and_flush :
      (s : State)
      → message_log event.tg_chat_id (store_and_flush s).1
        ≡ message_log event.tg_chat_id s ++ payload_of event ∷ []
  unfolding ◌>>=◌
  log-store_and_flush s =
      rw store_window_message_lem
        (log-when_flush _ _ _ ∙ log-stored_self settings (payload_of event) event.tg_chat_id s)

  pub log-store_and_flush_ne :
      (c : ℤ) (s : State)
      → (event.tg_chat_id == c) ≡ false
      → message_log c (store_and_flush s).1 ≡ message_log c s
  unfolding ◌>>=◌
  log-store_and_flush_ne c s away =
      rw store_window_message_lem
        (log-when_flush _ _ _ ∙ log-stored_ne settings (payload_of event) event.tg_chat_id c s away)

  pub accept_message_lem :
      (s : State)
      → accept_message settings x uuid event s
        ≡ (roll_over settings x uuid event
                (payload_of event)
                (get_last? (RedisList.lrange s.clock (s.windows event.tg_chat_id)))
              >>= λ _. store_and_flush)
            s
  unfolding accept_message load_window_messages ◌>>=◌
  accept_message_lem s = refl
