-- ===== src/PersonaBuilder/Tests.antt =====
-- A profile that grows beyond its cap, and the theorems at concrete inputs.
use personal_intelligence.Base.{
  ◌≡◌, refl, arith, false, none, some, List, [], ◌∷◌, Text, text, pos, same_text, strip,
}
use personal_intelligence.Exec.{ok}
use personal_intelligence.Contracts.{organization, EntityFoundEvent}
use personal_intelligence.PersonaBuilder.Aggregator.{
  State, Config, append_new, last_items, merge_list,
}
use personal_intelligence.PersonaBuilder.Consumer.{run}
use personal_intelligence.PersonaBuilder.Caps.{
  IsCapped, merge_list-IsCapped, AllCapped, run-AllCapped,
}

abbrev config : Config
config = record {
  lower = λ t. t;
  trust_formula = λ last count now. 500;
  persona_max_organizations = 2;
  persona_max_topics = 20;
}

abbrev old : List Text
old = text "a" ∷ text "b" ∷ []

abbrev new : List Text
new = text " c" ∷ text "b" ∷ []

-- The oldest name gives way.
merge_drops_oldest : merge_list (λ t. t) old new 2 ≡ text "b" ∷ text "c" ∷ []
unfolding merge_list append_new last_items strip same_text
merge_drops_oldest = refl

-- A cap of 0 keeps everything: `merged[-0:]` is the whole list.
no_cap_at_zero : merge_list (λ t. t) old new 0 ≡ text "a" ∷ text "b" ∷ text "c" ∷ []
unfolding merge_list append_new last_items strip same_text
no_cap_at_zero = refl

merge_list-IsCapped_example : IsCapped 2 (merge_list (λ t. t) old new 2)
unfolding same_text
merge_list-IsCapped_example =
    merge_list-IsCapped (λ t. t) old new 2 (omega arith) ((refl, tt), (tt, tt))

abbrev known : State
known = record {
  processed = [];
  persons =
      record {
        id = 1;
        tg_user_id = some (pos 100);
        display_name = text "Anna";
        organizations = text "a" ∷ [];
        topics = [];
        trust_score = 500;
        last_interaction_at = none;
        blocked = false;
      }
      ∷ [];
  mention_count_30d = λ id. 0;
  published = [];
  acked = [];
}

abbrev event : EntityFoundEvent
event = record {
  event_id = text "f1";
  occurred_at = 9;
  source_event_id = text "e1";
  tg_chat_id = pos 7;
  tg_message_id = pos 1;
  tg_sender_id = some (pos 100);
  language = text "en";
  entities =
      record {
        kind = organization;
        surface = text "B";
        normalized = text "b";
        confidence = 750;
        person_id = none;
      }
      ∷ [];
  trace_id = none;
}

run-AllCapped_example : AllCapped config (run config (ok ((text "1-0", ok event) ∷ []) ∷ []) known)
run-AllCapped_example =
    run-AllCapped config (omega arith) (omega arith) (ok ((text "1-0", ok event) ∷ []) ∷ []) known (
      record {
        organizations = record { short = omega arith; distinct = (tt, tt) };
        topics = record { short = omega arith; distinct = tt };
      },
      tt,
    )
