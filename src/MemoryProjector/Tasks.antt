-- ===== src/MemoryProjector/Tasks.antt =====
-- `_find_task_for_evidence` and `_sync_tasks` of consumer.py.
use personal_intelligence.Base.{
  ℕ, ◌+◌, Bool, true, false, not, ◌&&◌, ◌||◌, Option, none, some, List, [], ◌∷◌, ◌++◌, Text, text,
  ℤ, pos, int_eq, nat_eq, ◌==◌, ltb, leb, join, if◌then◌else◌,
}
use personal_intelligence.Contracts.{StructuredTask, ProjectionCommand}
use personal_intelligence.MemoryProjector.Tables.{opened, Person, Task, Db}
use personal_intelligence.MemoryProjector.People.{coalesce}

abbrev pub has_owner : Task → Bool
has_owner t = elim t.owner_person_id [ none ↦ false | some id ↦ true ]

-- ORDER BY (owner first), updated_at DESC, created_at DESC: does the earlier of two rows go first?
abbrev pub goes_first : Task → Task → Bool
goes_first t later =
    (has_owner t && not (has_owner later))
    || ((has_owner t || not (has_owner later)) && ltb later.updated_at t.updated_at)

abbrev pub is_evidence : ℕ → ℤ → Task → Bool
is_evidence chat message t = t.chat_id == chat && t.tg_message_id == message

unfoldable pub find_task_for_evidence : ℕ → ℤ → List Task → Option Task
find_task_for_evidence chat message [] = none
find_task_for_evidence chat message (t ∷ ts) =
    let rest = find_task_for_evidence chat message ts in
    if is_evidence chat message t
    then (elim rest [ none ↦ some t | some u ↦ if goes_first t u then some t else some u ])
    else rest

-- WHERE is_owner = TRUE ORDER BY updated_at DESC LIMIT 1; of equal times the first row.
unfoldable pub latest_owner : List Person → Option Person
latest_owner [] = none
latest_owner (p ∷ ps) =
    let rest = latest_owner ps in
    if p.is_owner
    then (elim rest [
      | none ↦ some p
      | some q ↦ if leb q.updated_at p.updated_at then some p else some q
    ])
    else rest

abbrev pub id_of : Option Person → Option ℕ
id_of none = none
id_of (some p) = some p.id

-- `task.evidence_message_ids[0] if task.evidence_message_ids else 0`
abbrev pub evidence_id : StructuredTask → ℤ
evidence_id task = elim task.evidence_message_ids [ [] ↦ pos 0 | ◌∷◌ m ms ↦ m ]

-- `"; ".join(task.caveats) if task.caveats else None`
abbrev pub caveats_text : List Text → Option Text
caveats_text [] = none
caveats_text (c ∷ cs) = some (join (text "; ") (c ∷ cs))

abbrev pub update_task : ℕ → Option ℕ → Option ℕ → StructuredTask → Task → Task
update_task now owner counterpart task t = record t {
  title = task.title;
  description = coalesce task.description t.description;
  owner_person_id = coalesce owner t.owner_person_id;
  counterpart_person_id = coalesce counterpart t.counterpart_person_id;
  due_at = coalesce task.due_at t.due_at;
  priority = task.priority;
  confidence = task.confidence;
  evidence = coalesce (caveats_text task.caveats) t.evidence;
  updated_at = now;
}

-- UPDATE task SET ... WHERE id = $1
unfoldable pub update_id : ℕ → (Task → Task) → List Task → List Task
update_id id f [] = []
update_id id f (t ∷ ts) = (if t.id == id then f t else t) ∷ update_id id f ts

abbrev pub new_task : ℕ → ℕ → ℕ → Option ℕ → Option ℕ → StructuredTask → Task
new_task fresh now chat owner counterpart task = record {
  id = fresh;
  title = task.title;
  description = task.description;
  owner_person_id = owner;
  counterpart_person_id = counterpart;
  chat_id = chat;
  tg_message_id = evidence_id task;
  due_at = task.due_at;
  status = opened;
  priority = task.priority;
  confidence = task.confidence;
  evidence = caveats_text task.caveats;
  updated_at = now;
}

abbrev pub sync_found : ℕ → Option ℕ → Option ℕ → StructuredTask → Option Task → Db → ℕ × Db
sync_found chat owner counterpart task (some existing) db = (
  existing.id,
  record db {
    tasks = update_id existing.id (update_task db.clock owner counterpart task) db.tasks;
  },
)
sync_found chat owner counterpart task none db = (
  db.next_id,
  record db {
    next_id = db.next_id + 1;
    tasks = db.tasks ++ new_task db.next_id db.clock chat owner counterpart task ∷ [];
  },
)

unfoldable pub sync_task : ℕ → Option ℕ → Option ℕ → StructuredTask → Db → ℕ × Db
sync_task chat owner counterpart task db =
    sync_found chat owner counterpart task (find_task_for_evidence chat (evidence_id task) db.tasks)
      db

unfoldable pub sync_all : ℕ → Option ℕ → Option ℕ → List StructuredTask → Db → List ℕ × Db
sync_all chat owner counterpart [] db = ([], db)
sync_all chat owner counterpart (task ∷ tasks) db =
    let (id, db1) = sync_task chat owner counterpart task db in
    let (ids, db2) = sync_all chat owner counterpart tasks db1 in (id ∷ ids, db2)

-- `next(iter(participant_map.values()), None)`
abbrev pub first_counterpart : List ℕ → Option ℕ
first_counterpart [] = none
first_counterpart (id ∷ ids) = some id

unfoldable pub sync_tasks : ℕ → List ℕ → ProjectionCommand → Db → List ℕ × Db
sync_tasks chat participant_ids command db =
    sync_all chat (id_of (latest_owner db.persons)) (first_counterpart participant_ids)
      command.result.tasks db
