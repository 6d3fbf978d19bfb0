-- ===== src/MemoryProjector/Windows.antt =====
-- `_upsert_analysis_window`, `_replace_facts` and `_replace_signals` of consumer.py.
use personal_intelligence.Base.{
  ℕ, not, List, [], ◌∷◌, ◌++◌, map, keep_if, Text, text_eq, ℤ, ◌==◌, sort_ints, if◌then◌else◌,
}
use personal_intelligence.Contracts.{
  WindowMessagePayload, StructuredClaim, AnalyticsSignal, ProjectionCommand,
}
use personal_intelligence.MemoryProjector.Tables.{Window, Fact, Signal, Db}

-- `messages[-1]` of a list with a first message
abbrev pub last_of : WindowMessagePayload → List WindowMessagePayload → WindowMessagePayload
last_of m [] = m
last_of m (n ∷ ms) = last_of n ms

-- The row of a command with the first and the other messages.
abbrev pub window_of :
    ℕ → List ℤ → ProjectionCommand → WindowMessagePayload → List WindowMessagePayload → Window
window_of chat participant_ids command first rest = record {
  id = command.source_window_id;
  chat_id = chat;
  tg_chat_id = command.tg_chat_id;
  participant_tg_ids = sort_ints participant_ids;
  chat_type = command.features.chat_type;
  window_start = first.occurred_at;
  window_end = (last_of first rest).occurred_at;
  messages = command.messages;
  features = command.features;
  analysis_payload = command.result;
}

-- ON CONFLICT (id) DO UPDATE: the chat, the kind and the start of the window stay.
abbrev pub merge_window : Window → Window → Window
merge_window excluded w = record w {
  window_end = excluded.window_end;
  participant_tg_ids = excluded.participant_tg_ids;
  messages = excluded.messages;
  features = excluded.features;
  analysis_payload = excluded.analysis_payload;
}

unfoldable pub upsert_window : Window → List Window → List Window
upsert_window excluded [] = excluded ∷ []
upsert_window excluded (w ∷ ws) =
    let rest = upsert_window excluded ws in
    if w.id == excluded.id then merge_window excluded w ∷ ws else w ∷ rest

unfoldable pub upsert_analysis_window : Window → Db → Db
upsert_analysis_window window db = record db { windows = upsert_window window db.windows }

abbrev pub fact_of : Text → StructuredClaim → Fact
fact_of window_id claim = record { window_id = window_id; claim = claim }

unfoldable pub replace_facts : Text → ProjectionCommand → Db → Db
replace_facts window_id command db = record db {
  facts =
      keep_if (λ (f : Fact). not (f.window_id == window_id)) db.facts
      ++ map (fact_of window_id) command.result.claims;
}

abbrev pub signal_of : Text → ProjectionCommand → AnalyticsSignal → Signal
signal_of window_id command signal = record {
  window_id = window_id;
  tg_chat_id = command.tg_chat_id;
  signal = signal;
}

unfoldable pub replace_signals : Text → ProjectionCommand → Db → Db
replace_signals window_id command db = record db {
  signals =
      keep_if (λ (s : Signal). not (s.window_id == window_id)) db.signals
      ++ map (signal_of window_id command) command.result.analytics_signals;
}
