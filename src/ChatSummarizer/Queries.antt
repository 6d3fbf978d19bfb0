-- ===== src/ChatSummarizer/Queries.antt =====
-- The SQL of the flush in consumer.py.
use personal_intelligence.Base.{
  ℕ, ◌+◌, ◌&&◌, Option, none, some, List, [], ◌∷◌, ◌++◌, map, keep_if, elem, is_empty, Text, text,
  ℤ, int_eq, nat_eq, ◌==◌, show_int, if◌then◌else◌,
}
use personal_intelligence.Contracts.{private}
use personal_intelligence.Store.Interactions
use personal_intelligence.Store.Interactions.{Interaction, update_interaction}
use personal_intelligence.ChatSummarizer.Tables.{Chat, Person, TaskRef, Db}
use personal_intelligence.ChatSummarizer.Windows.{WindowMessage}

unfoldable pub upsert_chat : ℕ → ℤ → List Chat → ℕ × List Chat
upsert_chat fresh tg_chat_id [] =
    (fresh, record { id = fresh; tg_chat_id = tg_chat_id; kind = private; title = none } ∷ [])
upsert_chat fresh tg_chat_id (c ∷ cs) =
    let (id, cs') = upsert_chat fresh tg_chat_id cs in
    if c.tg_chat_id == tg_chat_id then (c.id, c ∷ cs) else (id, c ∷ cs')

unfoldable pub ensure_chat : ℤ → Db → ℕ × Db
ensure_chat tg_chat_id db =
    let (id, chats) = upsert_chat db.next_id tg_chat_id db.chats in
    (id, record db { next_id = db.next_id + 1; chats = chats })

abbrev pub new_or_old : Option Text → Option Text → Option Text
new_or_old none old = old
new_or_old (some title) old = some title

-- UPDATE chat SET kind, title WHERE id
unfoldable pub update_chat : ℕ → WindowMessage → List Chat → List Chat
update_chat id m [] = []
update_chat id m (c ∷ cs) =
    (if c.id == id
      then record c { kind = m.chat_type; title = new_or_old m.chat_title c.title }
      else c)
    ∷ update_chat id m cs

unfoldable pub refresh_chat_metadata : ℕ → WindowMessage → Db → Db
refresh_chat_metadata id m db = record db { chats = update_chat id m db.chats }

abbrev pub id_name : ℤ → Text
id_name user = text "tg:" ++ show_int user

-- `name or f"tg:{id}"`
abbrev pub shown_name : ℤ → Option Text → Text
shown_name user none = id_name user
shown_name user (some name) = if is_empty name then id_name user else name

unfoldable pub upsert_person : ℕ → ℤ → Text → List Person → ℕ × List Person
upsert_person fresh user name [] =
    (fresh, record { id = fresh; tg_user_id = user; display_name = name } ∷ [])
upsert_person fresh user name (p ∷ ps) =
    let (id, ps') = upsert_person fresh user name ps in
    if p.tg_user_id == user
    then (p.id, record p { display_name = if is_empty name then p.display_name else name } ∷ ps)
    else (id, p ∷ ps')

unfoldable pub ensure_person : ℤ → Option Text → Db → ℕ × Db
ensure_person user name db =
    let (id, persons) = upsert_person db.next_id user (shown_name user name) db.persons in
    (id, record db { next_id = db.next_id + 1; persons = persons })

-- A sender that is missing or seen is passed over.
abbrev pub add_participant : Option ℤ → Option Text → List ℤ → Db → List ℤ × List ℕ × Db
add_participant none name seen db = (seen, [], db)
add_participant (some user) name seen db =
    let (id, db') = ensure_person user name db in
    if elem user seen then (seen, [], db) else (user ∷ seen, id ∷ [], db')

unfoldable pub participants_from : List ℤ → List WindowMessage → Db → List ℕ × Db
participants_from seen [] db = ([], db)
participants_from seen (m ∷ ms) db =
    let (seen', ids, db1) = add_participant m.tg_sender_id m.tg_sender_name seen db in
    let (rest, db2) = participants_from seen' ms db1 in (ids ++ rest, db2)

unfoldable pub ensure_participants : List WindowMessage → Db → List ℕ × Db
ensure_participants messages db = participants_from [] messages db

unfoldable pub find_window_task_ids : ℤ → List ℤ → Db → List ℕ
find_window_task_ids tg_chat_id message_ids db =
    map (λ (t : TaskRef). t.id)
      (keep_if (λ (t : TaskRef). t.tg_chat_id == tg_chat_id && elem t.tg_message_id message_ids)
        db.tasks)

-- The UPDATE of an interaction: the reference of its object stays.
abbrev pub refresh : Interaction → Interaction → Interaction
refresh new r = record r {
  window_end = new.window_end;
  participants = new.participants;
  topics = new.topics;
  sentiment = new.sentiment;
  summary = new.summary;
  tasks = new.tasks;
}

unfoldable pub upsert_interaction : Interaction → Db → ℕ × Db
upsert_interaction new db =
    let (id, rows) = Interactions.upsert_interaction (refresh new) new db.interactions in
    (id, record db { next_id = db.next_id + 1; interactions = rows })

abbrev pub with_ref : Text → Interaction → Interaction
with_ref object_key r = record r { source_object_ref = some object_key }

unfoldable pub set_interaction_object_ref : ℕ → Text → Db → Db
set_interaction_object_ref id object_key db = record db {
  interactions = update_interaction id (with_ref object_key) db.interactions;
}
