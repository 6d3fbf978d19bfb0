-- ===== src/Orchestrator/Bounds.antt =====
-- How full a window gets: `_handle_message` of consumer.py flushes a full one.
use personal_intelligence.Base.{
  ℕ, ◌+◌, ◌<◌, max, ◌≡◌, ap, false, Text, ℤ, int_eq, inl, inr, Bool-cases, length, leb, arith,
  ==_refl,
}
use personal_intelligence.Exec.{Result-cases, ok, pure, when, ◌>>=◌}
use personal_intelligence.Contracts.{TelegramMessageEvent}
use personal_intelligence.Store.RedisList
use personal_intelligence.Orchestrator.Settings.{Settings}
use personal_intelligence.Orchestrator.Graph.{Externals}
use personal_intelligence.Orchestrator.State.{State}
use personal_intelligence.Orchestrator.Consumer.{is_void, payload_of, handle_message}
use personal_intelligence.Orchestrator.Consumer.Emit.{
  stored, length-extended, store_window_message_lem, lrange-flush_window,
}
use personal_intelligence.Orchestrator.Conservation.{store_and_flush, flush_of_event}
use personal_intelligence.Orchestrator.Delivery.{
  has_handled, marked, rolling, handle_message-fresh, accept_message-ok, accept_message-err,
}

-- The number of messages in the open window of a chat.
abbrev pub open_messages : ℤ → State → ℕ
open_messages chat s = length (RedisList.lrange s.clock (s.windows chat))

module _ (settings : Settings) (x : Externals) (uuid : ℕ → Text)
    (event : TelegramMessageEvent) where
  open_messages-stored :
      (s : State)
      → open_messages event.tg_chat_id (stored settings event.tg_chat_id (payload_of event) s)
        ≡ open_messages event.tg_chat_id s + 1
  open_messages-stored s =
      rw (==_refl event.tg_chat_id) (length-extended settings event.tg_chat_id (payload_of event) s)

  room_left :
      (n : ℕ) (s : State)
      → open_messages event.tg_chat_id s ≡ n
      → (when (leb settings.analysis_window_size n) (flush_of_event settings x uuid event) s).0
        ≡ ok tt
      → open_messages event.tg_chat_id
          (when (leb settings.analysis_window_size n) (flush_of_event settings x uuid event) s).1
        < max 1 settings.analysis_window_size
  unfolding pure
  room_left n s e = elim (Bool-cases (leb settings.analysis_window_size n)) [
    | inl full ↦
        rw full λ done. rw (ap length (lrange-flush_window x uuid _ _ _ _ s done)) (omega arith)
    | inr room ↦ rw room λ _. ground (arith, e)
  ]

  store_and_flush_room :
      (s : State)
      → (store_and_flush settings x uuid event s).0 ≡ ok tt
      → open_messages event.tg_chat_id (store_and_flush settings x uuid event s).1
        < max 1 settings.analysis_window_size
  unfolding ◌>>=◌
  store_and_flush_room s = rw store_window_message_lem (room_left _ _ (open_messages-stored s))

  -- After a new message is handled without an exception, the open window of its chat holds fewer
  -- messages than the window size (none, if the size is 0).
  pub open_messages-lt-window_size :
      (s : State)
      → is_void event ≡ false
      → has_handled event.event_id s ≡ false
      → (handle_message settings x uuid event s).0 ≡ ok tt
      → open_messages event.tg_chat_id (handle_message settings x uuid event s).1
        < max 1 settings.analysis_window_size
  open_messages-lt-window_size s full fresh =
      let s' = marked event.event_id s in
      rw (handle_message-fresh settings x uuid event s full fresh)
        (elim (Result-cases (rolling settings x uuid event s' s').0) [
          | inl (e, failed) ↦ λ done. cc (accept_message-err settings x uuid event s' e failed)
          | inr (u, rolled) ↦
              rw (accept_message-ok settings x uuid event s' rolled) (store_and_flush_room _)
        ])
