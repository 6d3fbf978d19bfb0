-- ===== src/Orchestrator/Settings.antt =====
-- The settings that the handlers read (settings.py). A negative number in the environment acts as 0
-- does: a window is then full at its first message, and every time limit has a floor.
use personal_intelligence.Base.{ℕ, Text, text}

pub record Settings : Type 0 where
  pub window_strategy : Text
  pub analysis_window_size : ℕ
  pub analysis_time_window_minutes : ℕ

abbrev pub defaults : Settings
defaults = record {
  window_strategy = text "hybrid";
  analysis_window_size = 20;
  analysis_time_window_minutes = 60;
}
