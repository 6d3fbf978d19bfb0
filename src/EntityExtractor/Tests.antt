-- ===== src/EntityExtractor/Tests.antt =====
-- A message that names another person, and the theorems at concrete inputs.
use personal_intelligence.Base.{
  ℕ, ◌≡◌, refl, false, none, some, List, [], ◌∷◌, text, pos, same_text, same_int, strip,
  starts_with,
}
use personal_intelligence.Exec.{analysis_failed, Result, ok, err}
use personal_intelligence.Contracts.{private, TelegramMessageEvent}
use personal_intelligence.Store.Ledger
use personal_intelligence.EntityExtractor.Extractor.{
  Nlp, label_map, entity_of, collect, extract, detect_language, preprocess,
}
use personal_intelligence.EntityExtractor.Reconcile.{
  Fuzzy, find_person_id, find_chat, insert_mention,
}
use personal_intelligence.EntityExtractor.State.{Mention, State, init}
use personal_intelligence.EntityExtractor.Consumer.{
  mark_processed, write_mention, candidates, process_one, run, Entry,
}
use personal_intelligence.EntityExtractor.Mentions.{HasSelfMentions, run-HasSelfMentions}
use personal_intelligence.EntityExtractor.Distinct.{IsExtracted, extract_lem}

abbrev nlp : Nlp
nlp = record {
  lower = λ t. t;
  detect = λ t. ok (text "en");
  sub_urls = λ t. t;
  sub_emails = λ t. t;
  sub_phones = λ t. t;
  read = λ lang t. ok (
      record { label = text "PERSON"; content = text "Boris" }
      ∷ record { label = text "PERSON"; content = text " Boris" }
      ∷ record { label = text "ORG"; content = text "__URL__" }
      ∷ []);
}

abbrev fuzzy : Fuzzy
fuzzy = record { lower = λ t. t; ratio = λ a b. record { part = 1; whole = 1 } }

abbrev known : State
known = record init {
  persons =
      record { id = 1; tg_user_id = some (pos 100); display_name = text "Anna"; blocked = false }
      ∷ record { id = 2; tg_user_id = some (pos 200); display_name = text "Boris"; blocked = false }
      ∷ [];
  chats = record { id = 3; tg_chat_id = pos 7 } ∷ [];
}

abbrev event : TelegramMessageEvent
event = record {
  event_id = text "e1";
  occurred_at = 1000;
  trace_id = none;
  tg_chat_id = pos 7;
  tg_message_id = pos 1;
  tg_sender_id = some (pos 100);
  tg_sender_username = none;
  tg_sender_name = some (text "Anna");
  chat_title = none;
  chat_type = private;
  content = some (text "ask Boris");
  media_type = none;
  reply_to_message_id = none;
  is_forwarded = false;
  tg_date = none;
}

abbrev reads : List (Result (List Entry))
reads = ok (record { msg_id = text "1-0"; payload = ok event; stamp = (text "f", 5) } ∷ []) ∷ []

abbrev pairs : List Mention → List (ℕ × ℕ)
pairs [] = []
pairs (m ∷ ms) = (m.speaker_person_id, m.mentioned_person_id) ∷ pairs ms

-- Anna, who is the person 1, names Boris, who is the person 2.
anna_names_boris : pairs (run nlp fuzzy 600 reads known).mentions ≡ (1, 1) ∷ []
unfolding run process_one candidates write_mention mark_processed extract collect label_map
    entity_of detect_language preprocess find_person_id find_chat insert_mention strip starts_with
    same_text same_int Ledger.is_processed Ledger.mark_processed
anna_names_boris = refl

run-HasSelfMentions_example : HasSelfMentions (run nlp fuzzy 600 reads known)
run-HasSelfMentions_example = run-HasSelfMentions nlp fuzzy 600 reads known tt

extract_lem_example : IsExtracted nlp (text "ask Boris") (extract nlp (text "ask Boris") 600)
extract_lem_example = extract_lem nlp (text "ask Boris") 600

-- A model that raises sends the entry to the dead letters, and it is acknowledged.
abbrev failing : Nlp
failing = record nlp { read = λ lang t. err (analysis_failed (text "no model")) }

buries_failing_entry :
    let after = run failing fuzzy 600 reads known in
    (after.dead_letters ≡ (text "1-0", analysis_failed (text "no model")) ∷ [])
    × ((after.acked ≡ text "1-0" ∷ []) × (after.processed ≡ []))
unfolding run process_one extract strip detect_language preprocess Ledger.is_processed same_text
buries_failing_entry = (refl, (refl, refl))
