-- ===== src/TaskExtractor/Consumer/Queries.antt =====
-- The SQL statements of consumer.py as functions of the tables.
use personal_intelligence.Base.{
  ℕ, ◌+◌, Bool, true, false, ◌&&◌, Option, none, some, List, [], ◌∷◌, ◌++◌, Text, text, ℤ, int_eq,
  nat_eq, ◌==◌, elem, is_empty, show_int, leb, if◌then◌else◌,
}
use personal_intelligence.Contracts.{TelegramMessageEvent}
use personal_intelligence.TaskExtractor.State.{opened, done, dropped, Task, Person, Chat, State}

-- UPDATE task SET ... WHERE p
unfoldable pub update_where : (Task → Bool) → (Task → Task) → List Task → List Task
update_where p f [] = []
update_where p f (t ∷ ts) = (if p t then f t else t) ∷ update_where p f ts

abbrev pub is_open : Task → Bool
is_open t = elim t.status [ opened ↦ true | done ↦ false | dropped ↦ false ]

abbrev pub is_source : ℤ → ℤ → Task → Bool
is_source chat message t = t.source.tg_chat_id == chat && t.source.tg_message_id == message

-- WHERE status = 'open' AND chat = $1 AND message = ANY($2)
abbrev pub is_closable : ℤ → List ℤ → Task → Bool
is_closable chat messages t =
    is_open t && (t.source.tg_chat_id == chat && elem t.source.tg_message_id messages)

abbrev pub finish : ℕ → ℕ → Task → Task
finish resolved_at now t = record t {
  status = done;
  resolved_at = some resolved_at;
  updated_at = now;
}

abbrev pub coalesce {ℓ} : {A : Type ℓ} → Option A → Option A → Option A
coalesce none old = old
coalesce (some new) old = some new

abbrev pub drop_task : ℕ → Task → Task
drop_task now t = record t {
  status = dropped;
  resolved_at = some now;
  updated_at = now;
  evidence = coalesce t.evidence (some (text "source message deleted"));
}

-- ORDER BY created_at DESC LIMIT 1: the last of the rows that match
unfoldable pub find_task_by_source_message : ℤ → ℤ → List Task → Option Task
find_task_by_source_message chat message [] = none
find_task_by_source_message chat message (t ∷ ts) =
    elim (find_task_by_source_message chat message ts) [
      | none ↦ if is_source chat message t then some t else none
      | some later ↦ some later
    ]

abbrev pub merge_chat : TelegramMessageEvent → Chat → Chat
merge_chat event c = record c { kind = event.chat_type; title = coalesce event.chat_title c.title }

-- INSERT INTO chat ... ON CONFLICT (tg_chat_id) DO UPDATE ... RETURNING id: the id of the row that is
-- there, or the given one, and the table.
unfoldable pub upsert_chat : ℕ → TelegramMessageEvent → List Chat → ℕ × List Chat
upsert_chat fresh event [] = (
  fresh,
  record {
    id = fresh;
    tg_chat_id = event.tg_chat_id;
    kind = event.chat_type;
    title = event.chat_title;
  }
      ∷ [],
)
upsert_chat fresh event (c ∷ cs) =
    let (id, cs') = upsert_chat fresh event cs in
    if c.tg_chat_id == event.tg_chat_id then (c.id, merge_chat event c ∷ cs) else (id, c ∷ cs')

unfoldable pub ensure_chat : TelegramMessageEvent → State → ℕ × State
unfolding upsert_chat
ensure_chat event s =
    let (id, chats) = upsert_chat s.next_id event s.chats in
    (id, record s { next_id = s.next_id + 1; chats = chats })

abbrev pub is_user : ℤ → Person → Bool
is_user user p = elim p.tg_user_id [ none ↦ false | some id ↦ id == user ]

-- `display_name or f"tg:{tg_user_id}"`
abbrev pub shown_name : ℤ → Option Text → Text
shown_name user none = text "tg:" ++ show_int user
shown_name user (some name) = if is_empty name then text "tg:" ++ show_int user else name

abbrev pub merge_person : ℕ → Option Text → Text → Person → Person
merge_person now username name p = record p {
  username = coalesce username p.username;
  display_name = (if is_empty name then p.display_name else name);
  updated_at = now;
}

unfoldable pub upsert_person : ℕ → ℕ → ℤ → Option Text → Text → List Person → ℕ × List Person
upsert_person fresh now user username name [] = (
  fresh,
  record {
    id = fresh;
    tg_user_id = some user;
    username = username;
    display_name = name;
    is_owner = false;
    updated_at = now;
  }
      ∷ [],
)
upsert_person fresh now user username name (p ∷ ps) =
    let (id, ps') = upsert_person fresh now user username name ps in
    if is_user user p then (p.id, merge_person now username name p ∷ ps) else (id, p ∷ ps')

unfoldable pub ensure_person : Option ℤ → Option Text → Option Text → State → Option ℕ × State
unfolding upsert_person
ensure_person none username display_name s = (none, s)
ensure_person (some user) username display_name s =
    let (id, persons) =
      upsert_person s.next_id s.clock user username (shown_name user display_name) s.persons in
    (some id, record s { next_id = s.next_id + 1; persons = persons })

-- WHERE is_owner = TRUE ORDER BY updated_at DESC LIMIT 1
unfoldable pub latest_owner : List Person → Option Person
latest_owner [] = none
latest_owner (p ∷ ps) =
    let others = latest_owner ps in
    if p.is_owner
    then (elim others [
      | none ↦ some p
      | some q ↦ if leb q.updated_at p.updated_at then some p else some q
    ])
    else others

unfoldable pub get_owner_person_id : List Person → Option ℕ
unfolding latest_owner
get_owner_person_id ps = elim (latest_owner ps) [ none ↦ none | some p ↦ some p.id ]
