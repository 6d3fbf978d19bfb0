-- ===== src/EntityExtractor/Consumer.antt =====
-- `_process_one` and the loop of consumer.py. The SQL and the streams are taken not to fail, the models
-- of the languages may; pydantic's
-- decoding of an entry and the fresh id and time of an event are parameters.
use personal_intelligence.Base.{
  ℕ, eqb, Bool, Option, none, some, List, [], ◌∷◌, ◌++◌, map, Text, ℤ, truthy_id, is_empty, take,
  if◌then◌else◌,
}
use personal_intelligence.Exec.{Result, ok, err}
use personal_intelligence.Contracts.{
  EntityKind, person, organization, topic, EntityCandidate, EntityFoundEvent, TelegramMessageEvent,
}
use personal_intelligence.Store.Ledger
use personal_intelligence.EntityExtractor.Extractor.{Nlp, RawEntity, extract}
use personal_intelligence.EntityExtractor.Reconcile.{
  Fuzzy, find_person_id, find_chat, upsert_topic, insert_mention,
}
use personal_intelligence.EntityExtractor.State.{State, consumer_name}

abbrev pub is_processed : Text → State → Bool
is_processed event_id s = Ledger.is_processed consumer_name event_id s.processed

unfoldable pub mark_processed : Text → State → State
mark_processed event_id s = record s {
  processed = Ledger.mark_processed consumer_name event_id s.processed;
}

-- `normalized.replace(" ", "-")`
abbrev pub slug_of : Text → Text
slug_of normalized = map (λ c. if eqb c 32 then 45 else c) normalized

-- A mention is written where the person, the speaker and the chat are known.
unfoldable pub write_mention :
    TelegramMessageEvent → Text → Option ℕ → Option ℕ → Option ℕ → State → State
write_mention event content (some person_id) (some speaker_id) (some chat) s = record s {
  mentions =
      insert_mention
        (record {
          chat_id = chat;
          speaker_person_id = speaker_id;
          mentioned_person_id = person_id;
          message_ref = record {
            tg_chat_id = event.tg_chat_id;
            tg_message_id = event.tg_message_id;
          };
          context = some (take 200 content);
        })
        s.mentions;
}
write_mention event content none speaker chat s = s
write_mention event content (some p) none chat s = s
write_mention event content (some p) (some q) none s = s

abbrev pub candidate_of : RawEntity → Option ℕ → EntityCandidate
candidate_of ent person_id = record {
  kind = ent.kind;
  surface = ent.surface;
  normalized = ent.normalized;
  confidence = ent.confidence;
  person_id = person_id;
}

-- An entry with the decoding of its payload and the stamp of the event that it leads to.
pub record Entry : Type 0 where
  pub msg_id : Text
  pub payload : Result TelegramMessageEvent
  pub stamp : Text × ℕ

module _ (nlp : Nlp) (fuzzy : Fuzzy) (min_confidence : ℕ) where
  -- The speaker is looked up only for an event with a sender.
  abbrev pub speaker_of : Option ℤ → State → Option ℕ
  speaker_of none s = none
  speaker_of (some sender) s = find_person_id fuzzy (some sender) none s.persons

  abbrev pub reconcile :
      TelegramMessageEvent → Text → RawEntity → EntityKind → State → Option ℕ × State
  reconcile event content ent person s =
      let person_id = find_person_id fuzzy event.tg_sender_id (some ent.surface) s.persons in
      (
        person_id,
        write_mention event content person_id (speaker_of (truthy_id event.tg_sender_id) s)
            (find_chat event.tg_chat_id s.chats) s,
      )
  reconcile event content ent topic s =
      (none, record s { topics = upsert_topic (slug_of ent.normalized) ent.surface s.topics })
  reconcile event content ent organization s = (none, s)

  unfoldable pub candidates :
      TelegramMessageEvent → Text → List RawEntity → State → List EntityCandidate × State
  candidates event content [] s = ([], s)
  candidates event content (ent ∷ ents) s =
      let (person_id, s1) = reconcile event content ent ent.kind s in
      let (rest, s2) = candidates event content ents s1 in (candidate_of ent person_id ∷ rest, s2)

  abbrev pub found_event :
      Text × ℕ → TelegramMessageEvent → Text → List EntityCandidate → EntityFoundEvent
  found_event (fresh_id, now) event lang entities = record {
    event_id = fresh_id;
    occurred_at = now;
    source_event_id = event.event_id;
    tg_chat_id = event.tg_chat_id;
    tg_message_id = event.tg_message_id;
    tg_sender_id = event.tg_sender_id;
    language = lang;
    entities = entities;
    trace_id = event.trace_id;
  }

  -- Where the extraction raises nothing has been written.
  abbrev pub extract_into :
      Text × ℕ
      → TelegramMessageEvent
      → Text
      → Result (Text × List RawEntity)
      → State
      → Result (Unit {0}) × State
  extract_into stamp event content (err e) s = (err e, s)
  extract_into stamp event content (ok (lang, raw_entities)) s =
      let (entities, s') = candidates event content raw_entities s in
      (
        ok tt,
        mark_processed event.event_id
            (record s' { published = s'.published ++ found_event stamp event lang entities ∷ [] }),
      )

  abbrev pub process_text :
      Text × ℕ → TelegramMessageEvent → Option Text → State → Result (Unit {0}) × State
  process_text stamp event none s = (ok tt, s)
  process_text stamp event (some content) s =
      if is_empty content
      then (ok tt, s)
      else if is_processed event.event_id s
      then (ok tt, s)
      else extract_into stamp event content (extract nlp content min_confidence) s

  -- A payload that does not parse is logged and dropped.
  unfoldable pub process_one :
      Text × ℕ → Result TelegramMessageEvent → State → Result (Unit {0}) × State
  process_one stamp (err e) s = (ok tt, s)
  process_one stamp (ok event) s = process_text stamp event event.content s

  -- An entry whose handling raises goes to the stream of dead letters.
  abbrev pub bury : Text → Result (Unit {0}) → State → State
  bury msg_id (ok done) s = s
  bury msg_id (err e) s = record s { dead_letters = s.dead_letters ++ (msg_id, e) ∷ [] }

  unfoldable pub run_entries : List Entry → State → State
  unfolding process_one
  run_entries [] s = s
  run_entries (entry ∷ entries) s =
      let (result, handled) = process_one entry.stamp entry.payload s in
      let after = bury entry.msg_id result handled in
      run_entries entries (record after { acked = after.acked ++ entry.msg_id ∷ [] })

  -- One round of the loop for each read; a read that raises is logged and the loop goes on.
  unfoldable pub run : List (Result (List Entry)) → State → State
  unfolding run_entries
  run [] s = s
  run (err e ∷ reads) s = run reads s
  run (ok entries ∷ reads) s = run reads (run_entries entries s)
