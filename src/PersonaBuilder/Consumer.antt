-- ===== src/PersonaBuilder/Consumer.antt =====
-- `_process_one` and the loop of consumer.py. The SQL and the streams are taken not to fail, and
-- pydantic's decoding of an entry is a parameter.
use personal_intelligence.Base.{
  ℕ, Bool, true, false, ◌&&◌, Option, none, some, List, [], ◌∷◌, ◌++◌, map, Text, text, is_empty,
  keep_if, if◌then◌else◌,
}
use personal_intelligence.Exec.{Result, ok, err}
use personal_intelligence.Contracts.{
  person, organization, topic, EntityCandidate, EntityFoundEvent, PersonUpdatedEvent,
}
use personal_intelligence.Store.Ledger
use personal_intelligence.PersonaBuilder.Aggregator.{
  Person, State, Config, find_row, update_person_from_event,
}

abbrev pub consumer_name : Text
consumer_name = text "persona-builder"

abbrev pub is_processed : Text → State → Bool
is_processed event_id s = Ledger.is_processed consumer_name event_id s.processed

unfoldable pub mark_processed : Text → State → State
mark_processed event_id s = record s {
  processed = Ledger.mark_processed consumer_name event_id s.processed;
}

abbrev pub is_organization : EntityCandidate → Bool
is_organization e = elim e.kind [ organization ↦ true | person ↦ false | topic ↦ false ]

abbrev pub is_topic : EntityCandidate → Bool
is_topic e = elim e.kind [ topic ↦ true | person ↦ false | organization ↦ false ]

abbrev pub normalized_of : (EntityCandidate → Bool) → EntityFoundEvent → List Text
normalized_of p event = map (λ (e : EntityCandidate). e.normalized) (keep_if p event.entities)

abbrev pub updated_event : Option Text → Person → PersonUpdatedEvent
updated_event trace_id row = record {
  person_id = row.id;
  tg_user_id = row.tg_user_id;
  display_name = row.display_name;
  organizations = row.organizations;
  topics = row.topics;
  trust_score = row.trust_score;
  trace_id = trace_id;
}

abbrev pub publish_row : EntityFoundEvent → Option Person → State → State
publish_row event none s = s
publish_row event (some row) s = record s {
  published = s.published ++ updated_event event.trace_id row ∷ [];
}

abbrev pub publish_person : EntityFoundEvent → Option ℕ → State → State
publish_person event none s = s
publish_person event (some person_id) s = publish_row event (find_row person_id s.persons) s

module _ (config : Config) where
  abbrev pub aggregate : EntityFoundEvent → List Text → List Text → State → State
  aggregate event organizations topics s =
      let (person_id, s') =
        update_person_from_event config event.tg_sender_id organizations topics event.occurred_at
          s in
      mark_processed event.event_id (publish_person event person_id s')

  -- A payload that does not parse is logged and dropped.
  unfoldable pub process_one : Result EntityFoundEvent → State → State
  process_one (err e) s = s
  process_one (ok event) s =
      let organizations = normalized_of is_organization event in
      let topics = normalized_of is_topic event in
      if is_empty organizations && is_empty topics
      then mark_processed event.event_id s
      else if is_processed event.event_id s
      then s
      else aggregate event organizations topics s

  unfoldable pub run_entries : List (Text × Result EntityFoundEvent) → State → State
  unfolding process_one
  run_entries [] s = s
  run_entries ((msg_id, payload) ∷ entries) s =
      let after = process_one payload s in
      run_entries entries (record after { acked = after.acked ++ msg_id ∷ [] })

  -- One round of the loop for each read; a read that raises is logged and the loop goes on.
  unfoldable pub run : List (Result (List (Text × Result EntityFoundEvent))) → State → State
  unfolding run_entries
  run [] s = s
  run (err e ∷ reads) s = run reads s
  run (ok entries ∷ reads) s = run reads (run_entries entries s)
