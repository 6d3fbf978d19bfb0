-- ===== src/Orchestrator/Graph/Normalize.antt =====
-- `normalize_window` of graph.py: the messages in the order of their time and id, each id once.
use personal_intelligence.Base.{
  Bool, List, [], ◌∷◌, ℤ, int_eq, elem, leb_int, eqb, ltb, if◌then◌else◌, ◌&&◌, ◌||◌,
}
use personal_intelligence.Contracts.{WindowMessagePayload}

-- The order of the keys (occurred_at, tg_message_id).
unfoldable pub key_le : WindowMessagePayload → WindowMessagePayload → Bool
key_le a b =
    ltb a.occurred_at b.occurred_at
    || (eqb a.occurred_at b.occurred_at && leb_int a.tg_message_id b.tg_message_id)

unfoldable pub insert_message :
    WindowMessagePayload → List WindowMessagePayload → List WindowMessagePayload
insert_message m [] = m ∷ []
insert_message m (n ∷ ns) =
    let rest = insert_message m ns in if key_le m n then m ∷ n ∷ ns else n ∷ rest

-- `sorted`, which is stable: a message goes before its equals among those that followed it.
unfoldable pub sort_messages : List WindowMessagePayload → List WindowMessagePayload
unfolding insert_message key_le
sort_messages [] = []
sort_messages (m ∷ ms) = insert_message m (sort_messages ms)

-- The loop over the sorted messages with the set `seen`.
unfoldable pub dedup : List ℤ → List WindowMessagePayload → List WindowMessagePayload
dedup seen [] = []
dedup seen (m ∷ ms) =
    let skipped = dedup seen ms in
    let kept = m ∷ dedup (m.tg_message_id ∷ seen) ms in
    if elem m.tg_message_id seen then skipped else kept

unfoldable pub normalize_messages : List WindowMessagePayload → List WindowMessagePayload
unfolding sort_messages dedup
normalize_messages messages = dedup [] (sort_messages messages)
