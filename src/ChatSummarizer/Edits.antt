-- ===== src/ChatSummarizer/Edits.antt =====
-- What an edit does to the windows.
use personal_intelligence.Base.{
  ℕ, ◌≡◌, refl, sym, ap, ◌∙◌, true, false, List, [], ◌∷◌, map, Text, ℤ, int_eq, ◌==◌, ==_eq,
  is_empty, Bool-cases, inl, inr, arith, if◌then◌else◌,
}
use personal_intelligence.Contracts.{TelegramMessageEditedEvent, InteractionUpdatedEvent}
use personal_intelligence.Store.Ledger
use personal_intelligence.Store.RedisList
use personal_intelligence.ChatSummarizer.Tables.{Db}
use personal_intelligence.ChatSummarizer.Windows.{
  consumer_name, WindowMessage, State, is_processed, mark_processed, stripped, window_ttl,
  edit_entries, rewrite_window, edit_window, handle_edited_message,
}

-- The messages of a chat that Redis holds.
abbrev pub open_window : State → ℤ → List WindowMessage
open_window s chat = RedisList.lrange s.clock (s.windows chat)

-- The tables, the objects and the streams.
abbrev pub rest_of :
    State
    → Db × List (Text × List WindowMessage) × List InteractionUpdatedEvent × List Text × List Text
rest_of s = (s.db, s.objects, s.published, s.dead_letters, s.acked)

-- The new text, for the message that was edited.
abbrev pub edited : ℤ → Text → WindowMessage → WindowMessage
edited message content item =
    if item.tg_message_id == message then record item { content = content } else item

abbrev pub edited_in : TelegramMessageEditedEvent → ℤ → List WindowMessage → List WindowMessage
edited_in event chat window =
    if event.tg_chat_id == chat
    then map (edited event.tg_message_id (stripped event.new_text)) window
    else window

edit_entries_lem :
    (message : ℤ) (content : Text) (entries : List WindowMessage)
    → (edit_entries message content entries).0 ≡ map (edited message content) entries
unfolding edit_entries
edit_entries_lem message content [] = refl
edit_entries_lem message content (item ∷ entries) =
    elim (Bool-cases (item.tg_message_id == message)) [
      | inl hit ↦ rw hit (
          ap (λ rest. record item { content = content } ∷ rest)
            (edit_entries_lem message content entries))
      | inr miss ↦ rw miss (ap (λ rest. item ∷ rest) (edit_entries_lem message content entries))
    ]

-- Where nothing has changed, the window has no such message.
edit_entries-unchanged :
    (message : ℤ) (content : Text) (entries : List WindowMessage)
    → (edit_entries message content entries).1 ≡ false
    → (edit_entries message content entries).0 ≡ entries
unfolding edit_entries
edit_entries-unchanged message content [] = λ h. refl
edit_entries-unchanged message content (item ∷ entries) =
    elim (Bool-cases (item.tg_message_id == message)) [
      | inl hit ↦ rw hit (λ h. absurd cc)
      | inr miss ↦
          rw miss (λ h. ap (λ rest. item ∷ rest) (edit_entries-unchanged message content entries h))
    ]

module _ (time_window_minutes : ℕ) (event : TelegramMessageEditedEvent) where
  rewritten :
      (updated : List WindowMessage) (s : State) (chat : ℤ)
      → open_window (rewrite_window time_window_minutes event.tg_chat_id updated s) chat
        ≡ (if event.tg_chat_id == chat then updated else open_window s chat)
  unfolding rewrite_window
  rewritten updated s chat = elim (Bool-cases (event.tg_chat_id == chat)) [
    | inl here ↦ rw here (
        RedisList.lrange-expire_live s.clock s.clock (window_ttl time_window_minutes) _
          (omega arith))
    | inr away ↦ rw away refl
  ]

  same_window :
      (s : State) (chat : ℤ) (window : List WindowMessage)
      → open_window s event.tg_chat_id ≡ window
      → open_window s chat ≡ (if event.tg_chat_id == chat then window else open_window s chat)
  same_window s chat window e = elim (Bool-cases (event.tg_chat_id == chat)) [
    | inl here ↦ rw here (ap (open_window s) (sym (==_eq event.tg_chat_id chat here)) ∙ e)
    | inr away ↦ rw away refl
  ]

  edit_window_lem :
      (window : List WindowMessage) (s : State) (chat : ℤ)
      → open_window s event.tg_chat_id ≡ window
      → open_window (edit_window time_window_minutes event (stripped event.new_text) window s) chat
        ≡ (if event.tg_chat_id == chat
            then (edit_entries event.tg_message_id (stripped event.new_text) window).0
            else open_window s chat)
  unfolding edit_entries
  edit_window_lem [] s chat e = same_window s chat [] e
  edit_window_lem (entry ∷ entries) s chat e =
      elim (Bool-cases (edit_entries event.tg_message_id content window).1) [
        | inl changed ↦ rw changed (rewritten _ s chat)
        | inr unchanged ↦ rw unchanged (
            same_window s chat window e
            ∙ ap (λ w. if event.tg_chat_id == chat then w else open_window s chat)
                (sym (edit_entries-unchanged event.tg_message_id content window unchanged)))
      ]
    where
      content : Text
      content = stripped event.new_text

      window : List WindowMessage
      window = entry ∷ entries

  rest-edit_window :
      (content : Text) (window : List WindowMessage) (s : State)
      → rest_of (edit_window time_window_minutes event content window s) ≡ rest_of s
  unfolding rewrite_window
  rest-edit_window content [] s = refl
  rest-edit_window content (entry ∷ entries) s =
      elim (Bool-cases (edit_entries event.tg_message_id content (entry ∷ entries)).1) [
        | inl changed ↦ rw changed refl
        | inr unchanged ↦ rw unchanged refl
      ]

  processed-edit_window :
      (content : Text) (window : List WindowMessage) (s : State)
      → (edit_window time_window_minutes event content window s).processed ≡ s.processed
  unfolding rewrite_window
  processed-edit_window content [] s = refl
  processed-edit_window content (entry ∷ entries) s =
      elim (Bool-cases (edit_entries event.tg_message_id content (entry ∷ entries)).1) [
        | inl changed ↦ rw changed refl
        | inr unchanged ↦ rw unchanged refl
      ]

  -- An edit with a text, seen for the first time: each open window holds the messages that it held, in
  -- their order, with the stripped text for the message of the chat that was edited; the event is
  -- marked; and the tables, the objects and the streams are as before, so that no interaction is
  -- computed anew.
  pub handle_edited_message_lem :
      (s : State) (chat : ℤ)
      → is_empty (stripped event.new_text) ≡ false
      → is_processed event.event_id s ≡ false
      → let after = handle_edited_message time_window_minutes event s in
        (open_window after chat ≡ edited_in event chat (open_window s chat))
        × ((is_processed event.event_id after ≡ true) × (rest_of after ≡ rest_of s))
  unfolding handle_edited_message mark_processed
  handle_edited_message_lem s chat full fresh =
      let window = open_window s event.tg_chat_id in
      let marked_state = mark_processed event.event_id s in
      rw (full, fresh)
        (
          edit_window_lem window marked_state chat refl ∙ for_chat,
          (
            ap (Ledger.is_processed consumer_name event.event_id)
                  (processed-edit_window content window marked_state)
                ∙ Ledger.is_processed-mark_processed consumer_name event.event_id s.processed,
            rest-edit_window content window marked_state,
          ),
        )
    where
      content : Text
      content = stripped event.new_text

      for_chat :
          (if event.tg_chat_id == chat
            then (edit_entries event.tg_message_id content (open_window s event.tg_chat_id)).0
            else open_window s chat)
          ≡ edited_in event chat (open_window s chat)
      for_chat = elim (Bool-cases (event.tg_chat_id == chat)) [
        | inl here ↦ rw here (
            edit_entries_lem event.tg_message_id content (open_window s event.tg_chat_id)
            ∙ ap (λ c. map (edited event.tg_message_id content) (open_window s c))
                (==_eq event.tg_chat_id chat here))
        | inr away ↦ rw away refl
      ]
