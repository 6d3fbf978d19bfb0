-- ===== src/Orchestrator/Features.antt =====
-- preprocessing.py: the features of a window, its summary and its drift. Python's `re`, `str.casefold`,
-- `str.isdigit` and the rounding of a quotient to thousandths are parameters. Latencies are
-- microseconds, and their median is thousandths of a second.

use personal_intelligence.Base.{
  ℕ, ◌+◌, ◌-◌, ◌/◌, ◌%◌, Bool, true, false, not, ◌&&◌, ◌||◌, Option, none, some, List, [], ◌∷◌,
  ◌++◌, map, length, take, drop, is_empty, elem, Text, text, text_eq, ℤ, int_eq, nat_eq, ◌==◌, leb,
  ltb, eqb, sort_ints, sort_texts, as_set, if◌then◌else◌,
}
use personal_intelligence.Contracts.{
  ChatType, private, group, supergroup, channel, Sentiment, positive, negative, neutral, mixed,
  WindowKind, single, rolling, time_window, WindowMessagePayload, MessageFeatureSet,
}

-- The matches of the patterns, in the order of the text, and the methods of `str`.
pub record Patterns : Type 0 where
  pub handles : Text → List Text
  pub links : Text → List Text
  pub emails : Text → List Text
  pub phones : Text → List Text
  pub words : Text → List Text
  pub compact_phone : Text → Text
  pub casefold : Text → Text
  pub is_digit : Text → Bool
  pub round3 : ℕ → ℕ → ℕ

abbrev pub positive_hints : List Text
positive_hints =
    text "спасибо"
    ∷ text "thanks"
    ∷ text "great"
    ∷ text "отлично"
    ∷ text "супер"
    ∷ text "ok"
    ∷ text "done"
    ∷ []

abbrev pub negative_hints : List Text
negative_hints =
    text "срочно"
    ∷ text "urgent"
    ∷ text "проблема"
    ∷ text "ошибка"
    ∷ text "fail"
    ∷ text "плохо"
    ∷ text "не успеваю"
    ∷ []

abbrev pub stopwords : List Text
stopwords =
    text "это"
    ∷ text "как"
    ∷ text "для"
    ∷ text "with"
    ∷ text "that"
    ∷ text "this"
    ∷ text "что"
    ∷ text "если"
    ∷ text "будет"
    ∷ text "нужно"
    ∷ text "please"
    ∷ text "from"
    ∷ text "have"
    ∷ text "just"
    ∷ text "when"
    ∷ text "your"
    ∷ text "about"
    ∷ text "http"
    ∷ text "https"
    ∷ []

unfoldable pub normalize_chat_type : Text → ChatType
normalize_chat_type value =
    if value == text "group"
    then group
    else if value == text "supergroup"
    then supergroup
    else if value == text "channel"
    then channel
    else private

-- A type of chat, as the events carry it
abbrev pub chat_type_name : ChatType → Text
chat_type_name private = text "private"
chat_type_name group = text "group"
chat_type_name supergroup = text "supergroup"
chat_type_name channel = text "channel"

unfoldable pub normalize_window_kind : Text → WindowKind
normalize_window_kind value =
    if value == text "single"
    then single
    else if value == text "time_window"
    then time_window
    else rolling

unfoldable pub sentiment_of_hits : ℕ → ℕ → Sentiment
sentiment_of_hits positive_hits negative_hits =
    if ltb 0 positive_hits && ltb 0 negative_hits
    then mixed
    else if ltb 0 negative_hits
    then negative
    else if ltb 0 positive_hits
    then positive
    else neutral

-- `Counter`, in the order of the first occurrences
unfoldable pub count_up {ℓ} : {A : Type ℓ} → (A → A → Bool) → A → List (A × ℕ) → List (A × ℕ)
count_up same key [] = (key, 1) ∷ []
count_up same key (entry ∷ counter) =
    let rest = count_up same key counter in
    if same entry.0 key then (entry.0, entry.1 + 1) ∷ counter else entry ∷ rest

unfoldable pub count_onto {ℓ} : {A : Type ℓ} → (A → A → Bool) → List A → List (A × ℕ) → List (A × ℕ)
count_onto same [] counter = counter
count_onto same (key ∷ keys) counter = count_onto same keys (count_up same key counter)

-- `most_common`: of equal counts the first stays first.
unfoldable pub insert_count : Text × ℕ → List (Text × ℕ) → List (Text × ℕ)
insert_count entry [] = entry ∷ []
insert_count entry (next ∷ counter) =
    if leb next.1 entry.1 then entry ∷ next ∷ counter else next ∷ insert_count entry counter

unfoldable pub most_common : List (Text × ℕ) → List (Text × ℕ)
most_common [] = []
most_common (entry ∷ counter) = insert_count entry (most_common counter)

unfoldable pub insert_nat : ℕ → List ℕ → List ℕ
insert_nat a [] = a ∷ []
insert_nat a (b ∷ bs) = if leb a b then a ∷ b ∷ bs else b ∷ insert_nat a bs

unfoldable pub sort_nats : List ℕ → List ℕ
sort_nats [] = []
sort_nats (a ∷ bs) = insert_nat a (sort_nats bs)

abbrev pub head_or_0 : List ℕ → ℕ
head_or_0 [] = 0
head_or_0 (a ∷ rest) = a

abbrev pub nth : ℕ → List ℕ → ℕ
nth n items = head_or_0 (drop n items)

abbrev pub same_sender : Option ℤ → Option ℤ → Bool
same_sender none none = true
same_sender (some a) (some b) = a == b
same_sender none (some b) = false
same_sender (some a) none = false

unfoldable pub sender_ids : List WindowMessagePayload → List ℤ
sender_ids [] = []
sender_ids (m ∷ ms) = elim m.tg_sender_id [ none ↦ sender_ids ms | some id ↦ id ∷ sender_ids ms ]

-- What the loop over the messages gathers.
pub record Scan : Type 0 where
  pub handles : List Text
  pub links : List Text
  pub emails : List Text
  pub phones : List Text
  pub attachment_count : ℕ
  pub forwarded_count : ℕ
  pub reply_count : ℕ
  pub keyword_counter : List (Text × ℕ)
  pub positive_hits : ℕ
  pub negative_hits : ℕ
  pub latencies : List ℕ

abbrev pub empty_scan : Scan
empty_scan = record {
  handles = [];
  links = [];
  emails = [];
  phones = [];
  attachment_count = 0;
  forwarded_count = 0;
  reply_count = 0;
  keyword_counter = [];
  positive_hits = 0;
  negative_hits = 0;
  latencies = [];
}

abbrev pub add_if : Bool → ℕ → ℕ
add_if test n = if test then n + 1 else n

abbrev pub is_attached : Option Text → Bool
is_attached none = false
is_attached (some kind) = not (is_empty kind)

abbrev pub is_reply : Option ℤ → Bool
is_reply none = false
is_reply (some id) = true

-- A pause between two messages of different senders, unless time goes back
abbrev pub latency_onto : Option WindowMessagePayload → WindowMessagePayload → List ℕ → List ℕ
latency_onto none m latencies = latencies
latency_onto (some prev) m latencies =
    if not (same_sender m.tg_sender_id prev.tg_sender_id) && leb prev.occurred_at m.occurred_at
    then latencies ++ (m.occurred_at - prev.occurred_at) ∷ []
    else latencies

module _ (p : Patterns) where
  unfoldable pub scan_words : List Text → Scan → Scan
  scan_words [] scan = scan
  scan_words (word ∷ words) scan = scan_words words (
      if elem word stopwords || p.is_digit word then scan else record scan {
        keyword_counter = count_up (λ a b. a == b) word scan.keyword_counter;
        positive_hits = add_if (elem word positive_hints) scan.positive_hits;
        negative_hits = add_if (elem word negative_hints) scan.negative_hits;
      })

  unfoldable pub scan_message : Option WindowMessagePayload → WindowMessagePayload → Scan → Scan
  scan_message prev m scan =
      let with_words = scan_words (map p.casefold (p.words m.content)) (record scan {
        handles = scan.handles ++ p.handles m.content;
        links = scan.links ++ p.links m.content;
        emails = scan.emails ++ p.emails m.content;
        phones = scan.phones ++ map p.compact_phone (p.phones m.content);
        attachment_count = add_if (is_attached m.media_type) scan.attachment_count;
        forwarded_count = add_if m.is_forwarded scan.forwarded_count;
        reply_count = add_if (is_reply m.reply_to_message_id) scan.reply_count;
      }) in
      record with_words { latencies = latency_onto prev m with_words.latencies }

  unfoldable pub scan_all : Option WindowMessagePayload → List WindowMessagePayload → Scan → Scan
  scan_all prev [] scan = scan
  scan_all prev (m ∷ ms) scan = scan_all (some m) ms (scan_message prev m scan)

  -- `statistics.median` of the latencies, in seconds, to the thousandth
  abbrev pub median_of : List ℕ → ℕ
  median_of sorted =
      let n = length sorted in
      if eqb (n % 2) 1
      then p.round3 (nth (n / 2) sorted) 1000000
      else p.round3 (nth (n / 2 - 1) sorted + nth (n / 2) sorted) 2000000

  unfoldable pub median_latency : List ℕ → Option ℕ
  median_latency [] = none
  median_latency (a ∷ latencies) = some (median_of (sort_nats (a ∷ latencies)))

  abbrev pub sorted_set : List Text → List Text
  sorted_set items = sort_texts (as_set items)

  abbrev pub features_of :
      ChatType → WindowKind → List WindowMessagePayload → List ℤ → List ℤ → Scan → MessageFeatureSet
  features_of chat_type window_kind messages participants unique scan = record {
    chat_type = chat_type;
    message_count = length messages;
    participant_count = length unique;
    participant_tg_ids = unique;
    author_activity = count_onto (λ a b. a == b) participants [];
    mention_handles = sorted_set scan.handles;
    links = sorted_set scan.links;
    emails = sorted_set scan.emails;
    phones = sorted_set scan.phones;
    keyword_candidates = take 8 (map (λ entry. entry.0) (most_common scan.keyword_counter));
    sentiment_hint = sentiment_of_hits scan.positive_hits scan.negative_hits;
    attachment_count = scan.attachment_count;
    forwarded_count = scan.forwarded_count;
    reply_count = scan.reply_count;
    median_response_latency_sec = median_latency scan.latencies;
    window_kind = window_kind;
  }

  -- Without messages the fields have their defaults, which are those of nothing gathered.
  unfoldable pub compute_message_features :
      List WindowMessagePayload → Text → Text → MessageFeatureSet
  compute_message_features messages chat_type window_kind =
      let participants = sender_ids messages in
      features_of (normalize_chat_type chat_type) (normalize_window_kind window_kind) messages
        participants (sort_ints (as_set participants)) (scan_all none messages empty_scan)
