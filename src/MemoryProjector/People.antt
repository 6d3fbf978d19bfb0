-- ===== src/MemoryProjector/People.antt =====
-- `_ensure_chat`, `_ensure_person` and `_ensure_participants` of consumer.py.
use personal_intelligence.Base.{
  ℕ, ◌+◌, max, Bool, false, not, ◌&&◌, ◌||◌, Option, none, some, List, [], ◌∷◌, ◌++◌, map, Text,
  text, text_eq, ℤ, int_eq, nat_eq, ◌==◌, elem, is_empty, strip, take, show_int, if◌then◌else◌,
}
use personal_intelligence.Contracts.{WindowMessagePayload, ProjectionCommand, ChatType}
use personal_intelligence.MemoryProjector.Tables.{Chat, Person, Membership, Db}
use personal_intelligence.MemoryProjector.Owner.{Settings, matches_owner_identity}

abbrev pub coalesce {ℓ} : {A : Type ℓ} → Option A → Option A → Option A
coalesce none old = old
coalesce (some new) old = some new

-- The truth value of a name
abbrev pub is_filled : Option Text → Bool
is_filled none = false
is_filled (some t) = not (is_empty t)

-- `next((m.tg_sender_name for m in messages if m.tg_sender_name), None)`
unfoldable pub first_name : List WindowMessagePayload → Option Text
first_name [] = none
first_name (m ∷ ms) =
    let rest = first_name ms in if is_filled m.tg_sender_name then m.tg_sender_name else rest

unfoldable pub upsert_chat : ℕ → ℤ → ChatType → Option Text → List Chat → ℕ × List Chat
upsert_chat fresh tg_chat_id kind title [] =
    (fresh, record { id = fresh; tg_chat_id = tg_chat_id; kind = kind; title = title } ∷ [])
upsert_chat fresh tg_chat_id kind title (c ∷ cs) =
    let (id, cs') = upsert_chat fresh tg_chat_id kind title cs in
    if c.tg_chat_id == tg_chat_id
    then (c.id, record c { kind = kind; title = coalesce title c.title } ∷ cs)
    else (id, c ∷ cs')

unfoldable pub ensure_chat : ProjectionCommand → Db → ℕ × Db
ensure_chat command db =
    let (id, chats) =
      upsert_chat db.next_id command.tg_chat_id command.features.chat_type
        (first_name command.messages) db.chats in
    (id, record db { next_id = db.next_id + 1; chats = chats })

-- SELECT DISTINCT value ... WHERE value <> ''; the order of DISTINCT is not specified, here the first
-- of equal values stays.
unfoldable pub distinct_filled : List Text → List Text → List Text
distinct_filled seen [] = []
distinct_filled seen (t ∷ ts) =
    let skipped = distinct_filled seen ts in
    let kept = t ∷ distinct_filled (t ∷ seen) ts in
    if is_empty t || elem t seen then skipped else kept

-- GREATEST passes over NULL.
abbrev pub greatest : Option ℕ → ℕ → ℕ
greatest none new = new
greatest (some old) new = max old new

abbrev pub shown_name : ℤ → Option Text → Text
shown_name user none = text "tg:" ++ show_int user
shown_name user (some name) = if is_empty name then text "tg:" ++ show_int user else name

module _ (settings : Settings) where
  abbrev pub effective_display_name : Bool → ℤ → Option Text → Text
  effective_display_name is_owner tg_user_id display_name =
      let primary = strip settings.owner_primary_display_name in
      if is_owner && not (is_empty primary) then primary else shown_name tg_user_id display_name

  abbrev pub new_person : ℕ → ℕ → WindowMessagePayload → ℤ → List Text → Person
  new_person fresh now m user topics =
      let is_owner = matches_owner_identity settings user m.tg_sender_username m.tg_sender_name in
      record {
        id = fresh;
        tg_user_id = user;
        username = m.tg_sender_username;
        display_name = effective_display_name is_owner user m.tg_sender_name;
        topics = topics;
        last_interaction_at = some m.occurred_at;
        is_owner = is_owner;
        updated_at = now;
      }

  -- ON CONFLICT (tg_user_id) DO UPDATE, with EXCLUDED
  abbrev pub merge_person : Person → Person → Person
  merge_person excluded p = record p {
    username = coalesce excluded.username p.username;
    display_name =
        (if is_empty excluded.display_name then p.display_name else excluded.display_name);
    topics = distinct_filled [] (p.topics ++ excluded.topics);
    last_interaction_at = elim excluded.last_interaction_at [
      | none ↦ p.last_interaction_at
      | some new ↦ some (greatest p.last_interaction_at new)
    ];
    is_owner = p.is_owner || excluded.is_owner;
    updated_at = excluded.updated_at;
  }

  unfoldable pub upsert_person : Person → List Person → ℕ × List Person
  upsert_person excluded [] = (excluded.id, excluded ∷ [])
  upsert_person excluded (p ∷ ps) =
      let (id, ps') = upsert_person excluded ps in
      if p.tg_user_id == excluded.tg_user_id
      then (p.id, merge_person excluded p ∷ ps)
      else (id, p ∷ ps')

  unfoldable pub ensure_person : WindowMessagePayload → ℤ → List Text → Db → ℕ × Db
  ensure_person m user topics db =
      let (id, persons) = upsert_person (new_person db.next_id db.clock m user topics) db.persons in
      (id, record db { next_id = db.next_id + 1; persons = persons })

  abbrev pub same_member : ℕ → ℕ → Membership → Bool
  same_member chat person m = m.chat_id == chat && m.person_id == person

  -- INSERT INTO chat_membership ... ON CONFLICT DO NOTHING
  unfoldable pub add_membership : ℕ → ℕ → List Membership → List Membership
  add_membership chat person [] = record { chat_id = chat; person_id = person } ∷ []
  add_membership chat person (m ∷ ms) =
      let rest = add_membership chat person ms in
      if same_member chat person m then m ∷ ms else m ∷ rest

  -- A dict in the order of its insertions
  abbrev pub keys_of : List (ℤ × ℕ) → List ℤ
  keys_of participants = map (λ p. p.0) participants

  abbrev pub values_of : List (ℤ × ℕ) → List ℕ
  values_of participants = map (λ p. p.1) participants

  abbrev pub add_sender :
      ℕ → List Text → WindowMessagePayload → Option ℤ → List (ℤ × ℕ) → Db → List (ℤ × ℕ) × Db
  add_sender chat topics m none participants db = (participants, db)
  add_sender chat topics m (some user) participants db =
      let (id, db') = ensure_person m user topics db in
      if elem user (keys_of participants) then (participants, db) else (
        participants ++ (user, id) ∷ [],
        record db' { memberships = add_membership chat id db'.memberships },
      )

  unfoldable pub add_senders :
      ℕ → List Text → List WindowMessagePayload → List (ℤ × ℕ) → Db → List (ℤ × ℕ) × Db
  add_senders chat topics [] participants db = (participants, db)
  add_senders chat topics (m ∷ ms) participants db =
      let (participants', db') = add_sender chat topics m m.tg_sender_id participants db in
      add_senders chat topics ms participants' db'

  unfoldable pub ensure_participants : ℕ → ProjectionCommand → Db → List (ℤ × ℕ) × Db
  ensure_participants chat command db =
      add_senders chat (take 8 command.result.topics) command.messages [] db
