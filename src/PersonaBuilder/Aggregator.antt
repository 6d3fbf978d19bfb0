-- ===== src/PersonaBuilder/Aggregator.antt =====
-- aggregator.py, on the table `person`. `str.lower` and the formula of the trust score, which is in the
-- floats of `math.exp` and `math.log1p`, are parameters; scores are thousandths.
use personal_intelligence.Base.{
  ℕ, zero, suc, ◌-◌, Bool, false, not, ◌&&◌, Option, none, some, List, [], ◌∷◌, ◌++◌, Text, text_eq,
  ◌==◌, ℤ, int_eq, nat_eq, truthy_id, strip, is_empty, elem, length, drop, if◌then◌else◌,
}
use personal_intelligence.Contracts.{PersonUpdatedEvent}
use personal_intelligence.Store.Ledger.{Ledger}

pub record Person : Type 0 where
  pub id : ℕ
  pub tg_user_id : Option ℤ
  pub display_name : Text
  pub organizations : List Text
  pub topics : List Text
  pub trust_score : ℕ
  pub last_interaction_at : Option ℕ
  pub blocked : Bool

-- `mention_count_30d` counts the mentions of a person of the last 30 days.
pub record State : Type 0 where
  pub processed : Ledger
  pub persons : List Person
  pub mention_count_30d : ℕ → ℕ
  pub published : List PersonUpdatedEvent
  pub acked : List Text

pub record Config : Type 0 where
  pub lower : Text → Text
  pub trust_formula : Option ℕ → ℕ → ℕ → ℕ
  pub persona_max_organizations : ℕ
  pub persona_max_topics : ℕ

-- The loop of `_merge_list`. Its set `seen` holds what the list `merged` holds.
unfoldable pub append_new : (Text → Text) → List Text → List Text → List Text
append_new lower merged [] = merged
append_new lower merged (item ∷ new) =
    let norm = strip (lower item) in
    let skipped = append_new lower merged new in
    let grown = append_new lower (merged ++ norm ∷ []) new in
    if not (is_empty norm) && not (elem norm merged) then grown else skipped

-- `merged[-max_len:]`, where `-0` is 0
unfoldable pub last_items : ℕ → List Text → List Text
last_items zero merged = merged
last_items (suc n) merged = drop (length merged - suc n) merged

unfoldable pub merge_list : (Text → Text) → List Text → List Text → ℕ → List Text
merge_list lower existing new max_len = last_items max_len (append_new lower existing new)

abbrev pub is_user : ℤ → Person → Bool
is_user user p = elim p.tg_user_id [ none ↦ false | some id ↦ id == user ]

-- WHERE tg_user_id = $1 AND NOT blocked
unfoldable pub find_sender : ℤ → List Person → Option Person
find_sender user [] = none
find_sender user (p ∷ ps) =
    let rest = find_sender user ps in if is_user user p && not p.blocked then some p else rest

-- WHERE id = $1
unfoldable pub find_row : ℕ → List Person → Option Person
find_row id [] = none
find_row id (p ∷ ps) = let rest = find_row id ps in if p.id == id then some p else rest

abbrev trust_of_row : Config → State → ℕ → ℕ → Option Person → ℕ
trust_of_row config s person_id now none = 500
trust_of_row config s person_id now (some row) =
    config.trust_formula row.last_interaction_at (s.mention_count_30d person_id) now

unfoldable pub compute_trust : Config → ℕ → ℕ → State → ℕ
compute_trust config person_id now s =
    trust_of_row config s person_id now (find_row person_id s.persons)

-- UPDATE person SET ... WHERE id = $5
unfoldable pub update_row : ℕ → (Person → Person) → List Person → List Person
update_row id f [] = []
update_row id f (p ∷ ps) = (if p.id == id then f p else p) ∷ update_row id f ps

abbrev pub merged_row : Config → Person → List Text → List Text → ℕ → ℕ → Person → Person
merged_row config row organizations topics trust occurred_at p = record p {
  organizations =
      merge_list config.lower row.organizations organizations config.persona_max_organizations;
  topics = merge_list config.lower row.topics topics config.persona_max_topics;
  trust_score = trust;
  last_interaction_at = some occurred_at;
}

abbrev pub update_found :
    Config → List Text → List Text → ℕ → State → Option Person → Option ℕ × State
update_found config organizations topics occurred_at s none = (none, s)
update_found config organizations topics occurred_at s (some row) = (
  some row.id,
  record s {
    persons =
        update_row row.id
          (merged_row config row organizations topics (compute_trust config row.id occurred_at s)
            occurred_at)
          s.persons;
  },
)

abbrev pub update_sender : Config → Option ℤ → List Text → List Text → ℕ → State → Option ℕ × State
update_sender config none organizations topics occurred_at s = (none, s)
update_sender config (some sender) organizations topics occurred_at s =
    update_found config organizations topics occurred_at s (find_sender sender s.persons)

unfoldable pub update_person_from_event :
    Config → Option ℤ → List Text → List Text → ℕ → State → Option ℕ × State
update_person_from_event config tg_sender_id organizations topics occurred_at s =
    update_sender config (truthy_id tg_sender_id) organizations topics occurred_at s
