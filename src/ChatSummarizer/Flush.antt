-- ===== src/ChatSummarizer/Flush.antt =====
-- A flush of a window, whole or not at all, and what its failure costs the next message.
use personal_intelligence.Base.{
  ℕ, ◌≡◌, refl, ◌∙◌, true, false, Option, none, some, List, [], ◌∷◌, Text, ℤ, int_eq, is_empty, inl,
  inr,
}
use personal_intelligence.Exec.{
  Error, Result, Result-cases, ok, err, pure, raise, lift, gets, modify, ◌>>=◌,
}
use personal_intelligence.Exec.Leaves.{Leaves, leaves_rules}
use personal_intelligence.Exec.OnError.{LeavesOnError, modify-LeavesOnError, bind-LeavesOnError}
use personal_intelligence.Contracts.{TelegramMessageEvent}
use personal_intelligence.Store.Ledger
use personal_intelligence.ChatSummarizer.Tables.{Db}
use personal_intelligence.ChatSummarizer.Windows.{
  WindowMessage, State, is_processed, mark_processed, stripped, consumer_name,
}
use personal_intelligence.ChatSummarizer.Heuristics.{SummaryResult}
use personal_intelligence.ChatSummarizer.Engine.{summarize}
use personal_intelligence.ChatSummarizer.Consumer.{
  Settings, Services, load_window, on_db, write_db, transaction, store_object, put_object,
  write_interaction, flush_messages, flush_window, payload_of, should_roll_window, accept_message,
  handle_message,
}

-- A view of the state that reads neither the tables nor the object store.
pub record IsBeside {View : Type 0} (look : State → View) : Type 0 where
  pub db_free : (db : Db) (s : State) → look (record s { db = db }) ≡ look s
  pub object_free :
      (objects : List (Text × List WindowMessage)) (s : State)
      → look (record s { objects = objects }) ≡ look s

windows-IsBeside : IsBeside (λ s. s.windows)
windows-IsBeside = record { db_free = λ db s. refl; object_free = λ objects s. refl }

published-IsBeside : IsBeside (λ s. s.published)
published-IsBeside = record { db_free = λ db s. refl; object_free = λ objects s. refl }

processed-IsBeside : IsBeside (λ s. s.processed)
processed-IsBeside = record { db_free = λ db s. refl; object_free = λ objects s. refl }

module _ {View : Type 0} {look : State → View} (beside : IsBeside look) where
  on_db-Leaves : {A : Type 0} (f : Db → A × Db) → Leaves look (on_db f)
  unfolding on_db
  on_db-Leaves f = record { unchanged = λ s. beside.db_free _ s }

  write_db-Leaves : (f : Db → Db) → Leaves look (write_db f)
  unfolding modify
  write_db-Leaves f = record { unchanged = λ s. beside.db_free _ s }

  store_object-Leaves :
      (services : Services) (chat : ℤ) (trace_id : Option Text) (id : ℕ) (key : Text)
      (messages : List WindowMessage) (stored : Result Text)
      → Leaves look (store_object services chat trace_id id key messages stored)
  unfolding raise modify ◌>>=◌
  store_object-Leaves services chat trace_id id key messages (err e) = record {
    unchanged = λ s. refl;
  }
  store_object-Leaves services chat trace_id id key messages (ok ref) = record {
    unchanged = λ s. beside.db_free _ _ ∙ beside.object_free _ s;
  }

  put_object-Leaves :
      (services : Services) (chat : ℤ) (trace_id : Option Text) (id : ℕ)
      (messages : List WindowMessage) (put : Option (Text → Result Text))
      → Leaves look (put_object services chat trace_id id messages put)
  put_object-Leaves services chat trace_id id messages none = search leaves_rules
  put_object-Leaves services chat trace_id id messages (some put) =
      store_object-Leaves services chat trace_id id _ messages _

  write_interaction-LeavesOnError :
      (services : Services) (chat : ℤ) (trace_id : Option Text) (first : WindowMessage)
      (rest : List WindowMessage) (summary : SummaryResult)
      → LeavesOnError look (write_interaction services chat trace_id first rest summary)
  unfolding write_interaction
  write_interaction-LeavesOnError services chat trace_id first rest summary =
      search
        (
          bind-LeavesOnError, modify-LeavesOnError, leaves_rules, on_db-Leaves, write_db-Leaves,
          put_object-Leaves,
        )
        depth 40

-- Windows, tables, the stream of interactions and the ledger are as before.
pub record Untouched (before after : State) : Type 0 where
  pub same_processed : after.processed ≡ before.processed
  pub same_windows : after.windows ≡ before.windows
  pub same_db : after.db ≡ before.db
  pub same_published : after.published ≡ before.published

module _ (services : Services) (chat : ℤ) (trace_id : Option Text) where
  flush_messages_fails :
      (messages : List WindowMessage) (s : State) (e : Error)
      → (flush_messages services chat trace_id messages s).0 ≡ err e
      → Untouched s (flush_messages services chat trace_id messages s).1
  unfolding pure lift modify transaction ◌>>=◌
  flush_messages_fails [] s e = λ h. absurd cc
  flush_messages_fails (first ∷ rest) s e =
      elim (Result-cases (summarize services.engine (first ∷ rest))) [
        | inl (e', failed) ↦ rw failed (λ h. record {
          same_processed = refl;
          same_windows = refl;
          same_db = refl;
          same_published = refl;
        })
        | inr (summary, done) ↦
            rw done
              (elim (Result-cases
                (write_interaction services chat trace_id first rest summary s).0) [
                  | inr (unit, written) ↦ rw written (λ h. absurd cc)
                  | inl (e', failed) ↦ rw failed (λ h. record {
                    same_processed =
                        (write_interaction-LeavesOnError processed-IsBeside services chat trace_id
                            first rest summary).kept
                          s e' failed;
                    same_windows =
                        (write_interaction-LeavesOnError windows-IsBeside services chat trace_id
                            first rest summary).kept
                          s e' failed;
                    same_db = refl;
                    same_published =
                        (write_interaction-LeavesOnError published-IsBeside services chat trace_id
                            first rest summary).kept
                          s e' failed;
                  })
                ])
      ]

  -- If a flush raises, be it in the summary or in the object store, then the windows, the tables, the
  -- stream of interactions and the ledger are as before; an object that was stored stays.
  pub flush_window_fails :
      (s : State) (e : Error)
      → (flush_window services chat trace_id s).0 ≡ err e
      → Untouched s (flush_window services chat trace_id s).1
  unfolding flush_window gets ◌>>=◌
  flush_window_fails s e h = flush_messages_fails (load_window chat s) s e h

module _ (settings : Settings) (services : Services) (event : TelegramMessageEvent) where
  -- A fresh message with a text ends a window by its time, and the flush of that window raises.
  pub record FailingRollover (s : State) (e : Error) : Type 0 where
    pub has_text : is_empty (stripped event.content) ≡ false
    pub fresh : is_processed event.event_id s ≡ false
    pub too_old :
        should_roll_window settings services event.tg_chat_id
          (payload_of settings services event).occurred_at
          (mark_processed event.event_id s)
        ≡ true
    pub raises :
        (flush_window services event.tg_chat_id event.trace_id (mark_processed event.event_id s)).0
        ≡ err e

  -- Then the handler raises, no window has the message, which is marked all the same, and a retry
  -- returns and changes nothing: the message is lost.
  pub rollover_failure_loses_text :
      (s : State) (e : Error)
      → FailingRollover s e
      → let after = (handle_message settings services event s).1 in
        ((handle_message settings services event s).0 ≡ err e)
        × ((after.windows ≡ s.windows)
            × (handle_message settings services event after ≡ (ok tt, after)))
  unfolding handle_message accept_message mark_processed gets modify pure ◌>>=◌
  rollover_failure_loses_text s e f =
      let same =
        flush_window_fails services event.tg_chat_id event.trace_id
          (mark_processed event.event_id s) e f.raises in
      rw (f.has_text, f.fresh)
        (rw (f.too_old) (
          rw (f.raises) (
            refl,
            (
              same.same_windows,
              rw (same.same_processed) (
                  rw (Ledger.is_processed-mark_processed consumer_name event.event_id s.processed)
                    refl),
            ),
          )))
