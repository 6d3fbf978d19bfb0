-- ===== src/TaskExtractor/Rules.antt =====
-- rules.py. The three alternations of regular expressions are run by Python's `re`, `str.lower` reads
-- the Unicode tables, and `search_dates` is a package that may be missing: they are the parameters
-- of `Matchers`. Times are in UTC, and confidences are thousandths.
pub mod Due
pub mod Titles
use personal_intelligence.Base.{
  ℕ, Bool, true, false, ◌&&◌, not, Option, none, some, List, [], ◌∷◌, Text, text, is_empty, strip,
  squeeze, length, take, ltb, max, if◌then◌else◌,
}
use personal_intelligence.TaskExtractor.Rules.Titles.{normalize_text, make_title}
use personal_intelligence.TaskExtractor.Rules.Due.{Matchers, extract_due_at}

pub data TaskKind : Type 0 where
  promise request : TaskKind

pub record TaskCandidate : Type 0 where
  pub kind : TaskKind
  pub title : Text
  pub description : Text
  pub due_at : Option ℕ
  pub priority : ℕ
  pub confidence : ℕ
  pub evidence : Text

module _ (m : Matchers) where
  abbrev pub kind_and_confidence : Text → Option (TaskKind × ℕ)
  kind_and_confidence normalized =
      if m.promise_re normalized
      then some (promise, 650)
      else if m.request_re normalized
      then some (request, 550)
      else none

  abbrev pub build_candidate : Text → Option ℕ → TaskKind × ℕ → TaskCandidate
  build_candidate normalized none (kind, confidence) = record {
    kind = kind;
    title = make_title normalized;
    description = normalized;
    due_at = none;
    priority = 2;
    confidence = confidence;
    evidence = take 400 normalized;
  }
  build_candidate normalized (some due) (kind, confidence) = record {
    kind = kind;
    title = make_title normalized;
    description = normalized;
    due_at = some due;
    priority = 3;
    confidence = max confidence 700;
    evidence = take 400 normalized;
  }

  abbrev candidate_of_kind : Text → ℕ → Option (TaskKind × ℕ) → Option TaskCandidate
  candidate_of_kind normalized now none = none
  candidate_of_kind normalized now (some found) =
      some (build_candidate normalized (extract_due_at m normalized now) found)

  unfoldable pub extract_task_candidate : Text → ℕ → Option TaskCandidate
  extract_task_candidate content now =
      let source = strip content in
      if is_empty source
      then none
      else let normalized = normalize_text source in
        if ltb (length normalized) 8
        then none
        else candidate_of_kind normalized now (kind_and_confidence normalized)

  unfoldable pub detect_resolution : Text → Bool
  detect_resolution content =
      let normalized = normalize_text content in
      not (is_empty normalized) && m.resolution_re normalized
