-- ===== src/Orchestrator/Summary.antt =====
-- preprocessing.py: the summary of a window and the drift of its words.
use personal_intelligence.Base.{
  ℕ, ◌+◌, ◌-◌, ◌/◌, Bool, not, ◌||◌, Option, none, some, List, [], ◌∷◌, ◌++◌, map, keep_if, length,
  take, drop, is_empty, elem, Text, text, text_eq, ℤ, int_eq, leb, ltb, as_set, strip, rstrip, join,
  head_slice, dots, show_int, truthy_id, if◌then◌else◌,
}
use personal_intelligence.Contracts.{WindowMessagePayload}
use personal_intelligence.Orchestrator.Features.{Patterns, stopwords}

-- `name or f"tg:{id}" if id else "неизвестный"`, where the last test is the outer one
abbrev pub name_or_id : ℤ → Option Text → Text
name_or_id id none = text "tg:" ++ show_int id
name_or_id id (some name) = if is_empty name then text "tg:" ++ show_int id else name

abbrev pub speaker : Option ℤ → Option Text → Text
speaker none name = text "неизвестный"
speaker (some id) name = name_or_id id name

abbrev pub spoken : WindowMessagePayload → Text
spoken m = speaker (truthy_id m.tg_sender_id) m.tg_sender_name ++ text ": " ++ strip m.content

abbrev pub is_blank : Text → Bool
is_blank t = is_empty (strip t)

unfoldable pub summarize_messages : List WindowMessagePayload → ℕ → Text
summarize_messages messages limit_chars =
    let summary =
      join (text " | ") (keep_if (λ item. not (is_blank item)) (map spoken (take 6 messages))) in
    if leb (length summary) limit_chars
    then summary
    else rstrip (head_slice limit_chars 3 summary) ++ dots

module _ (p : Patterns) where
  unfoldable pub keep_words : List Text → List Text
  keep_words [] = []
  keep_words (word ∷ words) =
      let rest = keep_words words in
      if elem (p.casefold word) stopwords || p.is_digit (p.casefold word)
      then rest
      else p.casefold word ∷ rest

  unfoldable pub normalized_words : List WindowMessagePayload → List Text
  normalized_words [] = []
  normalized_words (m ∷ ms) = keep_words (p.words m.content) ++ normalized_words ms

  abbrev pub drift_of : List Text → List Text → ℕ
  drift_of first second =
      let overlap = keep_if (λ word. elem word second) (as_set first) in
      let union = as_set (first ++ second) in
      if is_empty first || is_empty second
      then 0
      else p.round3 (length union - length overlap) (length union)

  -- The drift in thousandths: 1 less the share of the words that both halves have.
  unfoldable pub topic_drift_score : List WindowMessagePayload → ℕ
  topic_drift_score messages =
      let midpoint = (length messages + 1) / 2 in
      if ltb (length messages) 2
      then 0
      else drift_of (normalized_words (take midpoint messages))
          (normalized_words (drop midpoint messages))
