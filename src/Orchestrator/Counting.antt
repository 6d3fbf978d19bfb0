-- ===== src/Orchestrator/Counting.antt =====
-- The counts of a window's features.
use personal_intelligence.Base.{
  ℕ, suc, ◌+◌, ◌<◌, ◌≡◌, refl, ap, ◌∙◌, sym, Bool, true, false, Option, none, some, List, [], ◌∷◌,
  length, All, Bool-cases, inl, inr, arith, ◌==◌, ==_eq, Text, ℤ, int_eq, keep_if, if◌then◌else◌,
}
use personal_intelligence.Contracts.{WindowMessagePayload}
use personal_intelligence.Orchestrator.Features.{
  Patterns, count_up, count_onto, sender_ids, compute_message_features,
}
use personal_intelligence.Orchestrator.Router.Signals.{sum_of}

abbrev same : ℤ → ℤ → Bool
same a b = a == b

sum_of-count_up :
    (key : ℤ) (counter : List (ℤ × ℕ)) → sum_of (count_up same key counter) ≡ suc (sum_of counter)
unfolding sum_of count_up
sum_of-count_up key [] = refl
sum_of-count_up key (entry ∷ counter) = elim (Bool-cases (same entry.0 key)) [
  | inl hit ↦ rw hit (omega arith)
  | inr miss ↦ rw miss (omega (arith, sum_of-count_up key counter))
]

sum_of-count_onto :
    (keys : List ℤ) (counter : List (ℤ × ℕ))
    → sum_of (count_onto same keys counter) ≡ length keys + sum_of counter
unfolding count_onto
sum_of-count_onto [] counter = omega arith
sum_of-count_onto (key ∷ keys) counter =
    omega (arith, sum_of-count_onto keys (count_up same key counter), sum_of-count_up key counter)

-- Every count is positive.
abbrev pub ArePositive : List (ℤ × ℕ) → Type 0
ArePositive counter = All (λ (entry : ℤ × ℕ). 0 < entry.1) counter

count_up-ArePositive :
    (key : ℤ) (counter : List (ℤ × ℕ))
    → ArePositive counter
    → ArePositive (count_up same key counter)
unfolding count_up
count_up-ArePositive key [] h = (omega arith, tt)
count_up-ArePositive key (entry ∷ counter) h = elim (Bool-cases (same entry.0 key)) [
  | inl hit ↦ rw hit (omega arith, h.1)
  | inr miss ↦ rw miss (h.0, count_up-ArePositive key counter h.1)
]

pub count_onto-ArePositive :
    (keys : List ℤ) (counter : List (ℤ × ℕ))
    → ArePositive counter
    → ArePositive (count_onto same keys counter)
unfolding count_onto
count_onto-ArePositive [] counter h = h
count_onto-ArePositive (key ∷ keys) counter h =
    count_onto-ArePositive keys (count_up same key counter) (count_up-ArePositive key counter h)

-- The count that stands for an author, 0 where there is none.
unfoldable pub count_of : ℤ → List (ℤ × ℕ) → ℕ
count_of user [] = 0
count_of user (entry ∷ counter) =
    let rest = count_of user counter in if same entry.0 user then entry.1 else rest

-- 1 for the user that is counted
abbrev one_if : Bool → ℕ
one_if true = 1
one_if false = 0

count_of-count_up :
    (user key : ℤ) (counter : List (ℤ × ℕ))
    → count_of user (count_up same key counter) ≡ one_if (same key user) + count_of user counter
unfolding count_of count_up
count_of-count_up user key [] = elim (Bool-cases (same key user)) [
  | inl hit ↦ rw hit refl
  | inr miss ↦ rw miss refl
]
count_of-count_up user key (entry ∷ counter) = elim (Bool-cases (same entry.0 key)) [
  | inl hit ↦
      rw (hit, sym (ap (λ k. same k user) (==_eq entry.0 key hit)))
        (elim (Bool-cases (same entry.0 user)) [
          | inl it ↦ rw it (omega arith)
          | inr other ↦ rw other (omega arith)
        ])
  | inr miss ↦ rw miss (elim (Bool-cases (same entry.0 user)) [
    | inr other ↦ rw other (count_of-count_up user key counter)
    | inl it ↦ rw it (rw (differs entry.0 it miss) (omega arith))
  ])
]
  where
    differs : (known : ℤ) → same known user ≡ true → same known key ≡ false → same key user ≡ false
    differs known it miss = elim (Bool-cases (same key user)) [
      | inr other ↦ other
      | inl one ↦ absurd (cc (sym miss ∙ ap (λ k. same known k) (==_eq key user one) ∙ it))
    ]

-- Who sent a message, read from the messages.
abbrev pub is_by : ℤ → Option ℤ → Bool
is_by user none = false
is_by user (some sender) = same sender user

abbrev pub is_sent : Option ℤ → Bool
is_sent none = false
is_sent (some sender) = true

abbrev pub messages_of : ℤ → List WindowMessagePayload → List WindowMessagePayload
messages_of user messages =
    keep_if (λ (m : WindowMessagePayload). is_by user m.tg_sender_id) messages

abbrev pub sent_messages : List WindowMessagePayload → List WindowMessagePayload
sent_messages messages = keep_if (λ (m : WindowMessagePayload). is_sent m.tg_sender_id) messages

count_of-count_onto :
    (user : ℤ) (messages : List WindowMessagePayload) (counter : List (ℤ × ℕ))
    → count_of user (count_onto same (sender_ids messages) counter)
      ≡ length (messages_of user messages) + count_of user counter
unfolding count_onto sender_ids
count_of-count_onto user [] counter = omega arith
count_of-count_onto user (m ∷ ms) counter =
    by_sender m.tg_sender_id refl (count_of-count_onto user ms)
  where
    by_sender :
        (sender : Option ℤ)
        → m.tg_sender_id ≡ sender
        → ((c : List (ℤ × ℕ))
            → count_of user (count_onto same (sender_ids ms) c)
              ≡ length (messages_of user ms) + count_of user c)
        → count_of user (count_onto same (sender_ids (m ∷ ms)) counter)
          ≡ length (messages_of user (m ∷ ms)) + count_of user counter
    by_sender none e rest = rw e (rest counter)
    by_sender (some id) e rest = rw e (
        rw (rest (count_up same id counter), count_of-count_up user id counter)
          (elim (Bool-cases (same id user)) [
            | inl hit ↦ rw hit (omega arith)
            | inr miss ↦ rw miss (omega arith)
          ]))

length-sender_ids :
    (messages : List WindowMessagePayload)
    → length (sender_ids messages) ≡ length (sent_messages messages)
unfolding sender_ids
length-sender_ids [] = refl
length-sender_ids (m ∷ ms) = by_sender m.tg_sender_id refl (length-sender_ids ms)
  where
    by_sender :
        (sender : Option ℤ)
        → m.tg_sender_id ≡ sender
        → length (sender_ids ms) ≡ length (sent_messages ms)
        → length (sender_ids (m ∷ ms)) ≡ length (sent_messages (m ∷ ms))
    by_sender none e rest = rw e rest
    by_sender (some id) e rest = rw e (ap suc rest)

-- The activity of each user is the number of the messages that the user sent; the activities add up to
-- the number of the messages that have a sender, and no author is there without a message.
pub author_activity_lem :
    (p : Patterns) (messages : List WindowMessagePayload) (chat_type window_kind : Text)
    → let activity = (compute_message_features p messages chat_type window_kind).author_activity in
      ((user : ℤ) → count_of user activity ≡ length (messages_of user messages))
      × ((sum_of activity ≡ length (sent_messages messages)) × ArePositive activity)
unfolding compute_message_features sum_of count_of
author_activity_lem p messages chat_type window_kind = (
  λ user. count_of-count_onto user messages [] ∙ omega arith,
  (
    omega (arith, sum_of-count_onto (sender_ids messages) [], length-sender_ids messages),
    count_onto-ArePositive (sender_ids messages) [] tt,
  ),
)
