-- ===== src/ChatSummarizer/Heuristics.antt =====
-- heuristics.py without its topics, which count words by a regular expression: `extract_topics` is a
-- parameter, as is `str.lower`.
use personal_intelligence.Base.{
  join, ℕ, ◌+◌, ◌-◌, ◌≤◌, not, ◌&&◌, List, [], ◌∷◌, ◌++◌, Text, text, length, length-append,
  length-take, length-rstrip_by, take, head_slice, rstrip, dots, leb, leb→le, le→leb, ltb, show_nat,
  is_empty, strip, has_part, keep_if, map, Bool-cases, inl, inr, arith, if◌then◌else◌,
}
use personal_intelligence.Contracts.{Sentiment, positive, negative, neutral, mixed}

pub record SummaryResult : Type 0 where
  pub topics : List Text
  pub sentiment : Sentiment
  pub summary : Text

pub record Words : Type 0 where
  pub lower : Text → Text
  pub extract_topics : List Text → List Text

-- The sets of the sources, as lists
abbrev pub positive_words : List Text
positive_words =
    text "good"
    ∷ text "great"
    ∷ text "thanks"
    ∷ text "thank"
    ∷ text "nice"
    ∷ text "done"
    ∷ text "ready"
    ∷ text "cool"
    ∷ text "отлично"
    ∷ text "спасибо"
    ∷ text "супер"
    ∷ text "хорошо"
    ∷ text "готово"
    ∷ text "класс"
    ∷ text "ок"
    ∷ text "окей"
    ∷ []

abbrev pub negative_words : List Text
negative_words =
    text "bad"
    ∷ text "issue"
    ∷ text "problem"
    ∷ text "fail"
    ∷ text "blocked"
    ∷ text "broken"
    ∷ text "hate"
    ∷ text "плохо"
    ∷ text "проблема"
    ∷ text "ошибка"
    ∷ text "сломалось"
    ∷ text "блокер"
    ∷ text "задержка"
    ∷ text "не работает"
    ∷ []

unfoldable pub truncate : Text → ℕ → Text
truncate content limit =
    if leb (length content) limit then content else rstrip (head_slice limit 3 content) ++ dots

-- `sum(word in lowered for word in words)`
abbrev pub count_words : List Text → Text → ℕ
count_words words lowered = length (keep_if (λ word. has_part word lowered) words)

unfoldable pub count_all : (Text → Text) → List Text → List Text → ℕ
count_all lower words [] = 0
count_all lower words (t ∷ texts) = count_words words (lower t) + count_all lower words texts

unfoldable pub detect_sentiment : Words → List Text → Sentiment
detect_sentiment w texts =
    let has_positive = ltb 0 (count_all w.lower positive_words texts) in
    let has_negative = ltb 0 (count_all w.lower negative_words texts) in
    if has_positive && has_negative
    then mixed
    else if has_positive
    then positive
    else if has_negative
    then negative
    else neutral

abbrev pub sentiment_name : Sentiment → Text
sentiment_name positive = text "positive"
sentiment_name negative = text "negative"
sentiment_name neutral = text "neutral"
sentiment_name mixed = text "mixed"

abbrev pub topic_part : List Text → List Text
topic_part [] = []
topic_part (t ∷ ts) = (text "topics: " ++ join (text ", ") (take 3 (t ∷ ts))) ∷ []

abbrev pub end_part : List Text → List Text
end_part [] = []
end_part (last ∷ []) = (text "end: " ++ truncate last 100) ∷ []
end_part (t ∷ u ∷ texts) = end_part (u ∷ texts)

abbrev pub end_of_rest : List Text → List Text
end_of_rest [] = []
end_of_rest (t ∷ texts) = end_part (t ∷ texts)

-- `texts` is not empty: its first text and the others.
unfoldable pub build_summary : Text → List Text → List Text → Sentiment → ℕ → Text
build_summary first rest topics sentiment max_chars =
    truncate
      (join (text "; ") (
        (show_nat (length (first ∷ rest)) ++ text " messages")
        ∷ (topic_part topics
            ++ (text "sentiment: " ++ sentiment_name sentiment)
              ∷ (text "start: " ++ truncate first 100)
              ∷ end_of_rest rest)))
      max_chars

abbrev pub summarize_cleaned : Words → ℕ → List Text → SummaryResult
summarize_cleaned w max_chars [] = record {
  topics = [];
  sentiment = neutral;
  summary = text "No meaningful messages in the window.";
}
summarize_cleaned w max_chars (first ∷ rest) =
    let topics = w.extract_topics (first ∷ rest) in
    let sentiment = detect_sentiment w (first ∷ rest) in
    record {
      topics = topics;
      sentiment = sentiment;
      summary = build_summary first rest topics sentiment max_chars;
    }

unfoldable pub summarize_window : Words → List Text → ℕ → SummaryResult
summarize_window w texts max_chars =
    summarize_cleaned w max_chars (keep_if (λ t. not (is_empty t)) (map strip texts))

length-head_slice :
    (limit less : ℕ) (content : Text)
    → less ≤ limit
    → length (head_slice limit less content) ≤ limit - less
unfolding head_slice
length-head_slice limit less content h =
    rw (le→leb less limit h) (omega (arith, length-take (limit - less) content))

-- With a limit of at least three characters, a truncated text is within the limit.
pub length-truncate :
    (content : Text) (limit : ℕ) → 3 ≤ limit → length (truncate content limit) ≤ limit
unfolding truncate rstrip
length-truncate content limit room = elim (Bool-cases (leb (length content) limit)) [
  | inl short ↦ rw short (leb→le _ _ short)
  | inr long ↦
      rw long
        (rw length-append (omega (arith, length-rstrip_by, length-head_slice limit 3 content room)))
]

-- With room for at least the message of an empty window, the summary of the heuristics is within the
-- limit, whatever the texts and the topics are.
pub length-summarize_window :
    (w : Words) (texts : List Text) (max_chars : ℕ)
    → 37 ≤ max_chars
    → length (summarize_window w texts max_chars).summary ≤ max_chars
unfolding summarize_window build_summary
length-summarize_window w texts max_chars room =
    of_cleaned (keep_if (λ t. not (is_empty t)) (map strip texts))
  where
    of_cleaned :
        (cleaned : List Text) → length (summarize_cleaned w max_chars cleaned).summary ≤ max_chars
    of_cleaned [] = room
    of_cleaned (first ∷ rest) = length-truncate _ max_chars (omega arith)
