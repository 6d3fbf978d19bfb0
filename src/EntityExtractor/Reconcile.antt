-- ===== src/EntityExtractor/Reconcile.antt =====
-- reconcile.py. `fuzz.ratio` of rapidfuzz is a parameter: it gives a share of the whole as a fraction,
-- and fractions are compared by multiplying out.
use personal_intelligence.Base.{
  ℕ, ◌*◌, Bool, false, not, ◌&&◌, Option, none, some, List, [], ◌∷◌, ◌++◌, Text, text_eq, ◌==◌, ℤ,
  int_eq, truthy_id, is_empty, take, keep_if, ltb, leb, if◌then◌else◌,
}
use personal_intelligence.EntityExtractor.State.{Person, Chat, Topic, Mention}

pub record Score : Type 0 where
  pub part : ℕ
  pub whole : ℕ

pub record Fuzzy : Type 0 where
  pub lower : Text → Text
  pub ratio : Text → Text → Score

abbrev pub is_user : ℤ → Person → Bool
is_user user p = elim p.tg_user_id [ none ↦ false | some id ↦ id == user ]

-- WHERE tg_user_id = $1 AND NOT blocked
unfoldable pub find_user : ℤ → List Person → Option ℕ
find_user user [] = none
find_user user (p ∷ ps) =
    let rest = find_user user ps in if is_user user p && not p.blocked then some p.id else rest

module _ (fuzzy : Fuzzy) where
  -- The loop: the id and the score of the best row so far.
  unfoldable pub best_match : Text → Option ℕ → Score → List Person → Option ℕ × Score
  best_match needle best_id best_score [] = (best_id, best_score)
  best_match needle best_id best_score (row ∷ rows) =
      let score = fuzzy.ratio needle (fuzzy.lower row.display_name) in
      let better = best_match needle (some row.id) score rows in
      let same = best_match needle best_id best_score rows in
      if ltb (best_score.part * score.whole) (score.part * best_score.whole) then better else same

  -- `best_score >= 0.85`
  abbrev pub if_similar : Option ℕ × Score → Option ℕ
  if_similar (best_id, score) = if leb (score.whole * 85) (score.part * 100) then best_id else none

  abbrev pub find_name : Option Text → List Person → Option ℕ
  find_name none persons = none
  find_name (some name) persons =
      if is_empty name
      then none
      else if_similar (
          best_match (fuzzy.lower name) none (record { part = 0; whole = 1 })
            (take 1000 (keep_if (λ (p : Person). not p.blocked) persons)))

  abbrev pub or_by_name : Option ℕ → Option Text → List Person → Option ℕ
  or_by_name none name persons = find_name name persons
  or_by_name (some id) name persons = some id

  abbrev pub find_by : Option ℤ → Option Text → List Person → Option ℕ
  find_by none name persons = find_name name persons
  find_by (some user) name persons = or_by_name (find_user user persons) name persons

  unfoldable pub find_person_id : Option ℤ → Option Text → List Person → Option ℕ
  unfolding find_user best_match
  find_person_id tg_user_id display_name persons =
      find_by (truthy_id tg_user_id) display_name persons

-- INSERT INTO topic ... ON CONFLICT (slug) DO UPDATE SET slug = EXCLUDED.slug
unfoldable pub upsert_topic : Text → Text → List Topic → List Topic
upsert_topic slug name [] = record { slug = slug; display_name = name } ∷ []
upsert_topic slug name (t ∷ ts) =
    let rest = upsert_topic slug name ts in if t.slug == slug then t ∷ ts else t ∷ rest

-- SELECT id FROM chat WHERE tg_chat_id = $1
unfoldable pub find_chat : ℤ → List Chat → Option ℕ
find_chat chat [] = none
find_chat chat (c ∷ cs) =
    let rest = find_chat chat cs in if c.tg_chat_id == chat then some c.id else rest

unfoldable pub insert_mention : Mention → List Mention → List Mention
insert_mention m mentions = mentions ++ m ∷ []
