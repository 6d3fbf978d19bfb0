-- ===== src/EntityExtractor/Mentions.antt =====
-- The mentions that consumer.py writes: who is mentioned in them.
use personal_intelligence.Base.{
  ℕ, ◌≡◌, refl, Option, none, some, List, [], ◌∷◌, Text, ℤ, All, All-append, Bool-cases, inl, inr,
  is_empty, truthy_id, pos, int_eq, ◌==◌,
}
use personal_intelligence.Exec.{Result, ok, err}
use personal_intelligence.Contracts.{EntityKind, person, organization, topic, TelegramMessageEvent}
use personal_intelligence.EntityExtractor.Extractor.{extract, Nlp, RawEntity}
use personal_intelligence.EntityExtractor.Reconcile.{
  Fuzzy, find_by, find_person_id, find_user, insert_mention, or_by_name,
}
use personal_intelligence.EntityExtractor.State.{Mention, State}
use personal_intelligence.EntityExtractor.Consumer.{
  write_mention, mark_processed, is_processed, speaker_of, reconcile, candidates, extract_into,
  bury, process_text, process_one, Entry, run_entries, run,
}

-- The one who speaks is the one who is mentioned.
pub record IsOfSelf (m : Mention) : Type 0 where
  pub same : m.mentioned_person_id ≡ m.speaker_person_id

abbrev pub HasSelfMentions : State → Type 0
HasSelfMentions s = All IsOfSelf s.mentions

module _ (nlp : Nlp) (fuzzy : Fuzzy) (min_confidence : ℕ) where
  by_name_of_user :
      (found : Option ℕ) (name : Option Text) (s : State) (speaker : ℕ)
      → or_by_name fuzzy found none s.persons ≡ some speaker
      → or_by_name fuzzy found name s.persons ≡ some speaker
  by_name_of_user none name s speaker h = cc
  by_name_of_user (some id) name s speaker h = h

  find_by_name :
      (user : Option ℤ) (name : Option Text) (s : State) (speaker : ℕ)
      → find_by fuzzy user none s.persons ≡ some speaker
      → find_by fuzzy user name s.persons ≡ some speaker
  find_by_name none name s speaker h = cc
  find_by_name (some u) name s speaker h = by_name_of_user (find_user u s.persons) name s speaker h

  find_by-speaker :
      (user : Option ℤ) (s : State) (speaker : ℕ)
      → speaker_of nlp fuzzy min_confidence user s ≡ some speaker
      → find_by fuzzy user none s.persons ≡ some speaker
  unfolding find_person_id
  find_by-speaker none s speaker = λ h. cc
  find_by-speaker (some u) s speaker = elim (Bool-cases (u == pos 0)) [
    | inl zero ↦ rw zero (λ h. cc)
    | inr positive ↦ rw positive (λ h. h)
  ]

  -- Where the speaker is known, the look-up for any name finds the speaker.
  find_person_id-speaker :
      (sender : Option ℤ) (name : Option Text) (s : State) (speaker : ℕ)
      → speaker_of nlp fuzzy min_confidence (truthy_id sender) s ≡ some speaker
      → find_person_id fuzzy sender name s.persons ≡ some speaker
  unfolding find_person_id
  find_person_id-speaker sender name s speaker h =
      find_by_name (truthy_id sender) name s speaker
        (find_by-speaker (truthy_id sender) s speaker h)

  writes-HasSelfMentions :
      (event : TelegramMessageEvent) (content : Text) (person speaker chat : Option ℕ) (s : State)
      → ((q : ℕ) → speaker ≡ some q → person ≡ some q)
      → HasSelfMentions s
      → HasSelfMentions (write_mention event content person speaker chat s)
  unfolding write_mention insert_mention
  writes-HasSelfMentions event content (some p) (some q) (some c) s same h =
      All-append IsOfSelf s.mentions _ h (record { same = cc (same q refl) }, tt)
  writes-HasSelfMentions event content none speaker chat s same h = h
  writes-HasSelfMentions event content (some p) none chat s same h = h
  writes-HasSelfMentions event content (some p) (some q) none s same h = h

  reconciles :
      (event : TelegramMessageEvent) (content : Text) (ent : RawEntity) (kind : EntityKind)
      (s : State)
      → HasSelfMentions s
      → HasSelfMentions (reconcile nlp fuzzy min_confidence event content ent kind s).1
  reconciles event content ent person s h =
      writes-HasSelfMentions event content _ _ _ s
        (find_person_id-speaker event.tg_sender_id (some ent.surface) s) h
  reconciles event content ent topic s h = h
  reconciles event content ent organization s h = h

  candidates-HasSelfMentions :
      (event : TelegramMessageEvent) (content : Text) (ents : List RawEntity) (s : State)
      → HasSelfMentions s
      → HasSelfMentions (candidates nlp fuzzy min_confidence event content ents s).1
  unfolding candidates
  candidates-HasSelfMentions event content [] s h = h
  candidates-HasSelfMentions event content (ent ∷ ents) s h =
      candidates-HasSelfMentions event content ents _ (reconciles event content ent ent.kind s h)

  extracts :
      (stamp : Text × ℕ) (event : TelegramMessageEvent) (content : Text)
      (extracted : Result (Text × List RawEntity)) (s : State)
      → HasSelfMentions s
      → HasSelfMentions (extract_into nlp fuzzy min_confidence stamp event content extracted s).1
  unfolding mark_processed
  extracts stamp event content (err e) s h = h
  extracts stamp event content (ok (lang, ents)) s h =
      candidates-HasSelfMentions event content ents s h

  process_text-HasSelfMentions :
      (stamp : Text × ℕ) (event : TelegramMessageEvent) (content : Option Text) (s : State)
      → HasSelfMentions s
      → HasSelfMentions (process_text nlp fuzzy min_confidence stamp event content s).1
  unfolding mark_processed
  process_text-HasSelfMentions stamp event none s h = h
  process_text-HasSelfMentions stamp event (some content) s h =
      elim (Bool-cases (is_empty content)) [
        | inl void ↦ rw void h
        | inr full ↦ rw full (elim (Bool-cases (is_processed event.event_id s)) [
          | inl seen ↦ rw seen h
          | inr fresh ↦
              rw fresh (extracts stamp event content (extract nlp content min_confidence) s h)
        ])
      ]

  process_one-HasSelfMentions :
      (stamp : Text × ℕ) (payload : Result TelegramMessageEvent) (s : State)
      → HasSelfMentions s
      → HasSelfMentions (process_one nlp fuzzy min_confidence stamp payload s).1
  unfolding process_one
  process_one-HasSelfMentions stamp (err e) s h = h
  process_one-HasSelfMentions stamp (ok event) s h =
      process_text-HasSelfMentions stamp event event.content s h

  buries :
      (msg_id : Text) (result : Result (Unit {0})) (s : State)
      → HasSelfMentions s
      → HasSelfMentions (bury nlp fuzzy min_confidence msg_id result s)
  buries msg_id (ok done) s h = h
  buries msg_id (err e) s h = h

  run_entries-HasSelfMentions :
      (entries : List Entry) (s : State)
      → HasSelfMentions s
      → HasSelfMentions (run_entries nlp fuzzy min_confidence entries s)
  unfolding run_entries
  run_entries-HasSelfMentions [] s h = h
  run_entries-HasSelfMentions (entry ∷ entries) s h = run_entries-HasSelfMentions entries _ (
      buries entry.msg_id (process_one nlp fuzzy min_confidence entry.stamp entry.payload s).0 _
        (process_one-HasSelfMentions entry.stamp entry.payload s h))

  -- Whatever the messages say and whoever is known: if each mention in the table is of its own
  -- speaker, so is each mention in the table after any run of the loop. The service never writes
  -- that someone mentioned another person.
  pub run-HasSelfMentions :
      (reads : List (Result (List Entry))) (s : State)
      → HasSelfMentions s
      → HasSelfMentions (run nlp fuzzy min_confidence reads s)
  unfolding run
  run-HasSelfMentions [] s h = h
  run-HasSelfMentions (err e ∷ reads) s h = run-HasSelfMentions reads s h
  run-HasSelfMentions (ok entries ∷ reads) s h =
      run-HasSelfMentions reads _ (run_entries-HasSelfMentions entries s h)
