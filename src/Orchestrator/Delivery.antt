-- ===== src/Orchestrator/Delivery.antt =====
-- What `_handle_message` of consumer.py does with a message, delivered once or again.
use personal_intelligence.Base.{
  ℕ, ◌≡◌, ◌≢◌, ==_ne, refl, ap, ◌∙◌, Bool, true, false, Option, none, some, [], ◌∷◌, ◌++◌, Text, ℤ,
  int_eq, ◌==◌, inl, inr, Bool-cases, get_last?,
}
use personal_intelligence.Exec.{
  Error, Result, Result-cases, ok, err, Exec, pure, when, ◌>>=◌, bind-of_ok, bind-of_err,
}
use personal_intelligence.Contracts.{TelegramMessageEvent, WindowMessagePayload}
use personal_intelligence.Store.Ledger
use personal_intelligence.Store.RedisList
use personal_intelligence.Orchestrator.Settings.{Settings}
use personal_intelligence.Orchestrator.Graph.{Externals}
use personal_intelligence.Orchestrator.State.{State, consumer_name}
use personal_intelligence.Orchestrator.Consumer.{
  is_processed, mark_processed, is_void, payload_of, roll_over, accept_message, handle_message,
}
use personal_intelligence.Orchestrator.Consumer.Emit.{
  processed-flush_window, store_window_message_lem,
}
use personal_intelligence.Orchestrator.Conservation.{
  message_log, log-roll_over, accept_message_lem, store_and_flush, flush_of_event,
  log-store_and_flush, log-store_and_flush_ne,
}

abbrev pub has_handled : Text → State → Bool
has_handled event_id s = Ledger.is_processed consumer_name event_id s.processed

abbrev pub marked : Text → State → State
marked event_id s = record s {
  processed = Ledger.mark_processed consumer_name event_id s.processed;
}

module _ (settings : Settings) (x : Externals) (uuid : ℕ → Text)
    (event : TelegramMessageEvent) where
  handle_message-void :
      (s : State) → is_void event ≡ true → handle_message settings x uuid event s ≡ (ok tt, s)
  unfolding handle_message pure
  handle_message-void s void = rw void

  handle_message-seen :
      (s : State)
      → has_handled event.event_id s ≡ true
      → handle_message settings x uuid event s ≡ (ok tt, s)
  unfolding handle_message is_processed ◌>>=◌
  handle_message-seen s seen = elim (Bool-cases (is_void event)) [
    | inl void ↦ rw void
    | inr full ↦ rw full (rw seen)
  ]

  pub handle_message-fresh :
      (s : State)
      → is_void event ≡ false
      → has_handled event.event_id s ≡ false
      → handle_message settings x uuid event s
        ≡ accept_message settings x uuid event (marked event.event_id s)
  unfolding handle_message is_processed mark_processed ◌>>=◌
  handle_message-fresh s full fresh = rw full (rw fresh)

  -- The rollover that the message may call for, at a state.
  abbrev pub rolling : State → Exec State Unit
  rolling s =
      roll_over settings x uuid event (payload_of event)
        (get_last? (RedisList.lrange s.clock (s.windows event.tg_chat_id)))

  pub accept_message-ok :
      (s : State)
      → (rolling s s).0 ≡ ok tt
      → accept_message settings x uuid event s
        ≡ store_and_flush settings x uuid event (rolling s s).1
  accept_message-ok s h =
      accept_message_lem settings x uuid event s
      ∙ bind-of_ok (rolling s) (λ _. store_and_flush settings x uuid event) s tt h

  pub accept_message-err :
      (s : State) (e : Error)
      → (rolling s s).0 ≡ err e
      → accept_message settings x uuid event s ≡ (err e, (rolling s s).1)
  accept_message-err s e h =
      accept_message_lem settings x uuid event s
      ∙ bind-of_err (rolling s) (λ _. store_and_flush settings x uuid event) s e h

  pub log-rolling : (c : ℤ) (s : State) → message_log c (rolling s s).1 ≡ message_log c s
  log-rolling c s = log-roll_over settings x uuid event c (payload_of event) _ s

  log-accepted :
      (s : State)
      → (rolling s s).0 ≡ ok tt
      → message_log event.tg_chat_id (accept_message settings x uuid event s).1
        ≡ message_log event.tg_chat_id s ++ payload_of event ∷ []
  log-accepted s done = rw (accept_message-ok s done) (
      log-store_and_flush settings x uuid event (rolling s s).1
      ∙ ap (λ l. l ++ payload_of event ∷ []) (log-rolling event.tg_chat_id s))

  log-accepted_ne :
      (c : ℤ) (s : State)
      → (event.tg_chat_id == c) ≡ false
      → (r : Result (Unit {0})) → (rolling s s).0 ≡ r
      → message_log c (accept_message settings x uuid event s).1 ≡ message_log c s
  log-accepted_ne c s away (ok tt) done =
      rw (accept_message-ok s done)
        (log-store_and_flush_ne settings x uuid event c (rolling s s).1 away ∙ log-rolling c s)
  log-accepted_ne c s away (err e) failed = rw (accept_message-err s e failed) (log-rolling c s)

  -- A new message that is handled without an exception is appended to the log of its chat (what was
  -- handed on for the chat, then its open window), and the log of every other chat stays as it is.
  pub log-handle_message :
      (s : State)
      → is_void event ≡ false
      → has_handled event.event_id s ≡ false
      → (handle_message settings x uuid event s).0 ≡ ok tt
      → (message_log event.tg_chat_id (handle_message settings x uuid event s).1
          ≡ message_log event.tg_chat_id s ++ payload_of event ∷ [])
        × ((c : ℤ)
            → event.tg_chat_id ≢ c
            → message_log c (handle_message settings x uuid event s).1 ≡ message_log c s)
  unfolding message_log
  log-handle_message s full fresh =
      rw (handle_message-fresh s full fresh) (elim (Result-cases (rolling s' s').0) [
        | inl (e, failed) ↦ λ done. cc (accept_message-err s' e failed)
        | inr (u, done) ↦ λ _. (
          log-accepted s' done,
          λ c away. log-accepted_ne c s' (==_ne event.tg_chat_id c away) _ refl,
        )
      ])
    where
      s' : State
      s' = marked event.event_id s

  processed-when_flush :
      (b : Bool) (s : State)
      → (when b (flush_of_event settings x uuid event) s).1.processed ≡ s.processed
  unfolding pure
  processed-when_flush true s = processed-flush_window x uuid _ _ _ _ s
  processed-when_flush false s = refl

  pub processed-roll_over :
      (p : WindowMessagePayload) (last : Option WindowMessagePayload) (s : State)
      → (roll_over settings x uuid event p last s).1.processed ≡ s.processed
  unfolding pure
  processed-roll_over p none s = refl
  processed-roll_over p (some last) s = processed-when_flush _ s

  processed-accept_message :
      (s : State) → (accept_message settings x uuid event s).1.processed ≡ s.processed
  unfolding ◌>>=◌
  processed-accept_message s = elim (Result-cases (rolling s s).0) [
    | inl (e, failed) ↦
        rw (accept_message-err s e failed) (processed-roll_over (payload_of event) _ s)
    | inr (u, done) ↦ rw (accept_message-ok s done) (
        rw store_window_message_lem
          (processed-when_flush _ _ ∙ processed-roll_over (payload_of event) _ s))
  ]

  -- Whether a message is handled or raises, a second delivery of the event changes nothing: it is
  -- not tried again.
  pub handle_message_twice :
      (s : State)
      → let s' = (handle_message settings x uuid event s).1 in
        handle_message settings x uuid event s' ≡ (ok tt, s')
  handle_message_twice s = elim (Bool-cases (is_void event)) [
    | inl void ↦ handle_message-void _ void
    | inr full ↦ elim (Bool-cases (has_handled event.event_id s)) [
      | inl seen ↦ rw (handle_message-seen s seen) (handle_message-seen s seen)
      | inr fresh ↦ handle_message-seen _ (
          rw (handle_message-fresh s full fresh) (
            rw (processed-accept_message (marked event.event_id s))
              (Ledger.is_processed-mark_processed consumer_name event.event_id s.processed)))
    ]
  ]
