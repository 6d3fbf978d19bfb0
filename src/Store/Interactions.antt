-- ===== src/Store/Interactions.antt =====
-- The table `interaction`, which the memory-projector and the chat-summarizer write: each looks for the
-- row of a chat and a start of a window, and updates it or inserts one.
use personal_intelligence.Base.{
  ℕ, ◌≡◌, refl, ◌∙◌, Bool, false, ◌&&◌, Option, none, some, List, [], ◌∷◌, ◌++◌, Text, ◌==◌, nat_eq,
  ==_symm, All, All-append, inl, inr, Bool-cases, Option-cases, if◌then◌else◌,
}
use personal_intelligence.Contracts.{Sentiment}

pub record Interaction : Type 0 where
  pub id : ℕ
  pub chat_id : ℕ
  pub window_start : ℕ
  pub window_end : ℕ
  pub participants : List ℕ
  pub topics : List Text
  pub sentiment : Sentiment
  pub summary : Text
  pub tasks : List ℕ
  pub source_object_ref : Option Text

abbrev pub is_at : ℕ → ℕ → Interaction → Bool
is_at chat start r = r.chat_id == chat && r.window_start == start

-- WHERE chat_id = $1 AND window_start = $2 ORDER BY created_at DESC LIMIT 1
unfoldable pub find_interaction : ℕ → ℕ → List Interaction → Option Interaction
find_interaction chat start [] = none
find_interaction chat start (r ∷ rs) = elim (find_interaction chat start rs) [
  | some later ↦ some later
  | none ↦ if is_at chat start r then some r else none
]

-- UPDATE interaction SET ... WHERE id = $1
unfoldable pub update_interaction :
    ℕ → (Interaction → Interaction) → List Interaction → List Interaction
update_interaction id f [] = []
update_interaction id f (r ∷ rs) = (if r.id == id then f r else r) ∷ update_interaction id f rs

abbrev pub upsert_found :
    (Interaction → Interaction)
    → Interaction
    → List Interaction
    → Option Interaction
    → ℕ × List Interaction
upsert_found f new rows none = (new.id, rows ++ new ∷ [])
upsert_found f new rows (some r) = (r.id, update_interaction r.id f rows)

-- The id of the row of the new row's chat and start, which is updated by `f` or inserted.
unfoldable pub upsert_interaction :
    (Interaction → Interaction) → Interaction → List Interaction → ℕ × List Interaction
unfolding find_interaction update_interaction
upsert_interaction f new rows =
    upsert_found f new rows (find_interaction new.chat_id new.window_start rows)

-- A change that leaves the id, the chat and the start.
pub record KeepsKey (f : Interaction → Interaction) : Type 0 where
  pub keeps_id : (r : Interaction) → (f r).id ≡ r.id
  pub keeps_chat : (r : Interaction) → (f r).chat_id ≡ r.chat_id
  pub keeps_start : (r : Interaction) → (f r).window_start ≡ r.window_start

-- No two rows have one chat and one start.
abbrev pub IsUnique : List Interaction → Type 0
IsUnique [] = Unit
IsUnique (r ∷ rs) =
    All (λ (q : Interaction). is_at r.chat_id r.window_start q ≡ false) rs × IsUnique rs

none_of-update :
    (chat start id : ℕ) (f : Interaction → Interaction) (rs : List Interaction)
    → KeepsKey f
    → All (λ (q : Interaction). is_at chat start q ≡ false) rs
    → All (λ (q : Interaction). is_at chat start q ≡ false) (update_interaction id f rs)
unfolding update_interaction
none_of-update chat start id f [] k h = tt
none_of-update chat start id f (r ∷ rs) k h = (
  (elim (Bool-cases (r.id == id)) [
    | inl hit ↦ rw hit (rw (k.keeps_chat r, k.keeps_start r) h.0)
    | inr miss ↦ rw miss h.0
  ]),
  none_of-update chat start id f rs k h.1,
)

pub IsUnique-update :
    (id : ℕ) (f : Interaction → Interaction) (rs : List Interaction)
    → KeepsKey f
    → IsUnique rs
    → IsUnique (update_interaction id f rs)
unfolding update_interaction
IsUnique-update id f [] k h = tt
IsUnique-update id f (r ∷ rs) k h = elim (Bool-cases (r.id == id)) [
  | inl hit ↦ rw hit (
    rw (k.keeps_chat r, k.keeps_start r) (none_of-update r.chat_id r.window_start id f rs k h.0),
    IsUnique-update id f rs k h.1,
  )
  | inr miss ↦
      rw miss (none_of-update r.chat_id r.window_start id f rs k h.0, IsUnique-update id f rs k h.1)
]

none_of-find_interaction :
    (chat start : ℕ) (rs : List Interaction)
    → find_interaction chat start rs ≡ none
    → All (λ (q : Interaction). is_at chat start q ≡ false) rs
unfolding find_interaction
none_of-find_interaction chat start [] = λ h. tt
none_of-find_interaction chat start (r ∷ rs) =
    elim (Option-cases (find_interaction chat start rs)) [
      | inr (later, found) ↦ rw found (λ h. absurd cc)
      | inl nothing ↦ rw nothing (elim (Bool-cases (is_at chat start r)) [
        | inl hit ↦ rw hit (λ h. absurd cc)
        | inr miss ↦ rw miss (λ h. (refl, none_of-find_interaction chat start rs nothing))
      ])
    ]

is_at_symm :
    (r q : Interaction) → is_at r.chat_id r.window_start q ≡ is_at q.chat_id q.window_start r
is_at_symm r q = rw (==_symm q.chat_id r.chat_id, ==_symm q.window_start r.window_start) refl

IsUnique-append :
    (rs : List Interaction) (new : Interaction)
    → All (λ (q : Interaction). is_at new.chat_id new.window_start q ≡ false) rs
    → IsUnique rs
    → IsUnique (rs ++ new ∷ [])
IsUnique-append [] new fresh h = (tt, tt)
IsUnique-append (r ∷ rs) new fresh h =
    (All-append _ rs _ h.0 (is_at_symm r new ∙ fresh.0, tt), IsUnique-append rs new fresh.1 h.1)

pub IsUnique-upsert_interaction :
    (f : Interaction → Interaction) (new : Interaction) (rows : List Interaction)
    → KeepsKey f
    → IsUnique rows
    → IsUnique (upsert_interaction f new rows).1
unfolding upsert_interaction
IsUnique-upsert_interaction f new rows k h =
    elim (Option-cases (find_interaction new.chat_id new.window_start rows)) [
      | inl missing ↦ rw missing (
          IsUnique-append rows new
            (none_of-find_interaction new.chat_id new.window_start rows missing) h)
      | inr (r, found) ↦ rw found (IsUnique-update r.id f rows k h)
    ]
