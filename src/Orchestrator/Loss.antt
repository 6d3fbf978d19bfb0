-- ===== src/Orchestrator/Loss.antt =====
-- How messages of a window can be lost in consumer.py: an analysis that fails during a rollover, and
-- a window that expires in Redis before the rollover that would hand it on.
use mathlib.Core.List.{append-nil}
use personal_intelligence.Base.{
  ℕ, ◌+◌, ◌-◌, ◌≤◌, ◌≡◌, refl, ap, ◌∙◌, true, false, some, List, [], ◌∷◌, ◌++◌, Text, ℤ, int_eq,
  get_last?, arith, text_eq,
}
use personal_intelligence.Exec.{Error, ok, err}
use personal_intelligence.Contracts.{TelegramMessageEvent, WindowMessagePayload}
use personal_intelligence.Store.Ledger
use personal_intelligence.Store.RedisList
use personal_intelligence.Store.RedisList.{RedisList}
use personal_intelligence.Orchestrator.Settings.{Settings}
use personal_intelligence.Orchestrator.Rollover.{needs_rollover, gap_of_rollover}
use personal_intelligence.Orchestrator.Graph.{Externals, run_graph}
use personal_intelligence.Orchestrator.State.{State, consumer_name}
use personal_intelligence.Orchestrator.Consumer.{is_void, payload_of, handle_message, window_ttl}
use personal_intelligence.Orchestrator.Consumer.Emit.{window_input, flush_window_lem}
use personal_intelligence.Orchestrator.Conservation.{message_log, handed_on}
use personal_intelligence.Orchestrator.Delivery.{
  has_handled, marked, rolling, handle_message-fresh, accept_message-err, log-rolling,
  processed-roll_over, log-handle_message, handle_message_twice,
}

module _ (settings : Settings) (x : Externals) (uuid : ℕ → Text)
    (event : TelegramMessageEvent) where
  -- A new message ends a window by a rollover, and the analysis of that window raises.
  pub record FailingRollover (s : State) (e : Error) : Type 0 where
    pub first : WindowMessagePayload
    pub others : List WindowMessagePayload
    pub last : WindowMessagePayload
    pub open_window : RedisList.lrange s.clock (s.windows event.tg_chat_id) ≡ first ∷ others
    pub last_message : get_last? (first ∷ others) ≡ some last
    pub too_old :
        needs_rollover last.occurred_at
          (payload_of event).occurred_at
          settings.window_strategy
          settings.analysis_time_window_minutes
        ≡ true
    pub raises :
        run_graph x (
          window_input x uuid event.tg_chat_id event.event_id event.chat_type event.trace_id s
            (first ∷ others))
        ≡ err e

  rolling-fails :
      (s : State) (e : Error) → FailingRollover s e → (rolling settings x uuid event s s).0 ≡ err e
  rolling-fails s e f =
      rw (f.open_window, f.last_message)
        (rw (f.too_old) (
          rw
            (flush_window_lem x uuid event.tg_chat_id event.event_id event.chat_type event.trace_id
              s f.first f.others f.open_window)
            (rw (f.raises))))

  FailingRollover-marked :
      (s : State) (e : Error) → FailingRollover s e → FailingRollover (marked event.event_id s) e
  FailingRollover-marked s e f = record {
    first = f.first;
    others = f.others;
    last = f.last;
    open_window = f.open_window;
    last_message = f.last_message;
    too_old = f.too_old;
    raises = f.raises;
  }

  log-marked : (c : ℤ) (s : State) → message_log c (marked event.event_id s) ≡ message_log c s
  unfolding message_log
  log-marked c s = refl

  -- If the analysis of the old window raises, the new message goes into no window and no event of
  -- any chat, yet its event is marked as handled, and a later delivery of it returns and changes
  -- nothing.
  pub rollover_failure_loses_message :
      (s : State) (e : Error)
      → is_void event ≡ false
      → has_handled event.event_id s ≡ false
      → FailingRollover s e
      → let after = (handle_message settings x uuid event s).1 in
        ((handle_message settings x uuid event s).0 ≡ err e)
        × ((c : ℤ) → message_log c after ≡ message_log c s)
        × (has_handled event.event_id after ≡ true)
        × (handle_message settings x uuid event after ≡ (ok tt, after))
  rollover_failure_loses_message s e full fresh f =
      let s' = marked event.event_id s in
      let fails = rolling-fails s' e (FailingRollover-marked s e f) in
      let outcome =
        handle_message-fresh settings x uuid event s full fresh
        ∙ accept_message-err settings x uuid event s' e fails in
      (
        ap (λ r. r.0) outcome,
        λ c.
            ap (λ r. message_log c r.1) outcome
            ∙ log-rolling settings x uuid event c s'
            ∙ log-marked c s,
        ap (λ r. has_handled event.event_id r.1) outcome
            ∙ rw (processed-roll_over settings x uuid event (payload_of event) _ s')
                (Ledger.is_processed-mark_processed consumer_name event.event_id s.processed),
        handle_message_twice settings x uuid event s,
      )

-- The window of the event's chat as the last message `last` left it at the time `stored_at`, with
-- time windows of an hour or longer; the new message comes in the next time window, and reaches the
-- handler no faster than `last` did.
pub record LateRollover (settings : Settings) (event : TelegramMessageEvent) (s : State)
    : Type 0 where
  pub before : RedisList WindowMessagePayload
  pub last : WindowMessagePayload
  pub stored_at : ℕ
  pub stored : s.windows event.tg_chat_id ≡ RedisList.expire stored_at (window_ttl settings) before
  pub last_message : get_last? before.items ≡ some last
  pub an_hour : 60 ≤ settings.analysis_time_window_minutes
  pub stored_after : last.occurred_at ≤ stored_at
  pub no_faster : (payload_of event).occurred_at + (stored_at - last.occurred_at) ≤ s.clock
  pub too_old :
      needs_rollover last.occurred_at
        (payload_of event).occurred_at
        settings.window_strategy
        settings.analysis_time_window_minutes
      ≡ true

module _ (settings : Settings) (event : TelegramMessageEvent) (s : State)
    (l : LateRollover settings event s) where
  window_is_gone : RedisList.lrange s.clock (s.windows event.tg_chat_id) ≡ []
  window_is_gone = rw (l.stored) (
      RedisList.lrange-expire_dead l.stored_at s.clock (window_ttl settings) l.before (
        omega (
          arith,
          gap_of_rollover l.last.occurred_at (payload_of event).occurred_at settings.window_strategy
              settings.analysis_time_window_minutes l.too_old,
        )))

  -- The messages of a window that a new message should roll over have expired when it comes: they
  -- were in the log of the chat, and after the handling it holds what was handed on before, and the
  -- new message, alone.
  pub late_rollover_loses_window :
      (x : Externals) (uuid : ℕ → Text)
      → is_void event ≡ false
      → has_handled event.event_id s ≡ false
      → (handle_message settings x uuid event s).0 ≡ ok tt
      → (message_log event.tg_chat_id (record s { clock = l.stored_at })
          ≡ handed_on event.tg_chat_id s.published ++ l.before.items)
        × (message_log event.tg_chat_id (handle_message settings x uuid event s).1
            ≡ handed_on event.tg_chat_id s.published ++ payload_of event ∷ [])
  unfolding message_log
  late_rollover_loses_window x uuid full fresh done = (
    rw (l.stored) (
        ap (λ w. handed_on event.tg_chat_id s.published ++ w)
          (RedisList.lrange-expire_live l.stored_at l.stored_at (window_ttl settings) l.before
            (omega arith))),
    (log-handle_message settings x uuid event s full fresh done).0
        ∙ ap (λ w. (handed_on event.tg_chat_id s.published ++ w) ++ payload_of event ∷ [])
            window_is_gone
        ∙ ap (λ w. w ++ payload_of event ∷ [])
            (append-nil (handed_on event.tg_chat_id s.published)),
  )
