-- ===== src/MemoryProjector/Owner.antt =====
-- The identity of the owner of the account: the sets of settings.py and `_matches_owner_identity` of
-- consumer.py. `str.casefold` and `int` of a text are Python's.
use personal_intelligence.Base.{
  eqb, Bool, not, ◌&&◌, ◌||◌, Option, none, some, List, [], ◌∷◌, map, keep_if, Text, text_eq, ℤ,
  int_eq, elem, is_empty, strip, lstrip_by, split_on, if◌then◌else◌,
}

pub record Settings : Type 0 where
  pub owner_tg_user_ids : Text
  pub owner_usernames : Text
  pub owner_display_names : Text
  pub owner_primary_display_name : Text
  pub embedding_provider : Text
  pub embedding_model : Text
  pub embedding_alias : Text
  pub neo4j_password : Text
  pub casefold : Text → Text
  pub parse_int : Text → Option ℤ

abbrev pub or_empty : Option Text → Text
or_empty none = []
or_empty (some t) = t

-- `lstrip("@")`
abbrev pub without_at : Text → Text
without_at t = lstrip_by (λ c. eqb c 64) t

module _ (settings : Settings) where
  abbrev keep_parsed : Option ℤ → List ℤ → List ℤ
  keep_parsed none ids = ids
  keep_parsed (some id) ids = id ∷ ids

  unfoldable pub parse_ids : List Text → List ℤ
  parse_ids [] = []
  parse_ids (item ∷ items) =
      let rest = parse_ids items in
      if is_empty (strip item) then rest else keep_parsed (settings.parse_int (strip item)) rest

  unfoldable pub owner_tg_user_id_set : List ℤ
  unfolding parse_ids
  owner_tg_user_id_set = parse_ids (split_on 44 settings.owner_tg_user_ids)

  abbrev pub filled : Text → List Text
  filled names = keep_if (λ item. not (is_empty (strip item))) (split_on 44 names)

  unfoldable pub owner_username_set : List Text
  owner_username_set =
      map (λ item. settings.casefold (without_at (strip item))) (filled settings.owner_usernames)

  unfoldable pub owner_display_name_set : List Text
  owner_display_name_set =
      map (λ item. settings.casefold (strip item)) (filled settings.owner_display_names)

  abbrev pub is_named : Text → List Text → Bool
  is_named name names = not (is_empty name) && elem name names

  unfoldable pub matches_owner_identity : ℤ → Option Text → Option Text → Bool
  matches_owner_identity tg_user_id username display_name =
      elem tg_user_id owner_tg_user_id_set
      || is_named (settings.casefold (without_at (strip (or_empty username)))) owner_username_set
      || is_named (settings.casefold (strip (or_empty display_name))) owner_display_name_set
