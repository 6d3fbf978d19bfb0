-- ===== src/Orchestrator/Rollover.antt =====
-- `needs_rollover` of preprocessing.py, which windowing.py of the chat-summarizer repeats: does the
-- gap to the last message end the window? `total_seconds` is a float that is exact to the
-- microsecond over 285 years, so the comparison is made in microseconds.
use personal_intelligence.Base.{
  ℕ, ◌+◌, ◌*◌, ◌≤◌, max, ◌≡◌, Bool, true, false, List, [], ◌∷◌, Text, text, elem, text_eq, leb,
  if◌then◌else◌, arith,
}

abbrev pub microseconds : ℕ → ℕ
microseconds seconds = seconds * 1000000

abbrev pub by_time : List Text
by_time = text "by_time_window" ∷ text "hybrid" ∷ []

module _ (last_occurred_at occurred_at : ℕ) (strategy : Text) (time_window_minutes : ℕ) where
  unfoldable pub needs_rollover : Bool
  needs_rollover =
      if elem strategy by_time
      then leb (last_occurred_at + microseconds (max 60 (time_window_minutes * 60))) occurred_at
      else false

  -- A rollover takes a gap of the whole time window.
  pub gap_of_rollover :
      needs_rollover ≡ true
      → last_occurred_at + microseconds (time_window_minutes * 60) ≤ occurred_at
  unfolding needs_rollover
  gap_of_rollover h = ground arith
