-- ===== src/PersonaBuilder/Caps.antt =====
-- The lists of a person: their caps, and that nothing stands in them twice.
use mathlib.Core.Path.{subst}
use personal_intelligence.Base.{
  ℕ, zero, suc, ◌-◌, ◌≤◌, ◌<◌, ◌≡◌, refl, false, not, ◌&&◌, Option, none, some, List, [], ◌∷◌, ◌++◌,
  Text, text_eq, ◌==◌, ℤ, All, All-append, elem, is_empty, strip, length, drop, length-drop,
  truthy_id, nat_eq, Bool-cases, inl, inr, arith,
}
use personal_intelligence.Exec.{Result, ok, err}
use personal_intelligence.Contracts.{EntityFoundEvent}
use personal_intelligence.PersonaBuilder.Aggregator.{
  Person, State, Config, append_new, last_items, merge_list, find_sender, update_row, merged_row,
  update_found, update_sender, update_person_from_event, is_user,
}
use personal_intelligence.PersonaBuilder.Consumer.{
  mark_processed, publish_person, publish_row, process_one, run_entries, run, is_processed,
  normalized_of, is_organization, is_topic,
}

abbrev pub IsDistinct : List Text → Type 0
IsDistinct [] = Unit
IsDistinct (x ∷ xs) = All (λ y. (y == x) ≡ false) xs × IsDistinct xs

IsDistinct-snoc :
    (xs : List Text) (norm : Text)
    → elem norm xs ≡ false
    → IsDistinct xs
    → IsDistinct (xs ++ norm ∷ [])
IsDistinct-snoc [] norm new h = (tt, tt)
IsDistinct-snoc (x ∷ xs) norm new h =
    (All-append _ xs _ h.0 (ground arith, tt), IsDistinct-snoc xs norm (ground arith) h.1)

IsDistinct-drop : (n : ℕ) (xs : List Text) → IsDistinct xs → IsDistinct (drop n xs)
IsDistinct-drop zero xs h = h
IsDistinct-drop (suc n) [] h = h
IsDistinct-drop (suc n) (x ∷ xs) h = IsDistinct-drop n xs h.1

append_new-IsDistinct :
    (lower : Text → Text) (new merged : List Text)
    → IsDistinct merged
    → IsDistinct (append_new lower merged new)
unfolding append_new
append_new-IsDistinct lower [] merged h = h
append_new-IsDistinct lower (item ∷ new) merged h =
    elim (Bool-cases (not (is_empty norm) && not (elem norm merged))) [
      | inl fresh ↦
          rw fresh
            (append_new-IsDistinct lower new _ (IsDistinct-snoc merged norm (ground arith) h))
      | inr old ↦ rw old (append_new-IsDistinct lower new merged h)
    ]
  where
    norm : Text
    norm = strip (lower item)

pub record IsCapped (cap : ℕ) (xs : List Text) : Type 0 where
  pub short : length xs ≤ cap
  pub distinct : IsDistinct xs

-- Whatever is merged into a list in which nothing stands twice: with a positive cap the result has
-- at most that many items, and nothing stands in it twice.
pub merge_list-IsCapped :
    (lower : Text → Text) (existing new : List Text) (max_len : ℕ)
    → 0 < max_len
    → IsDistinct existing
    → IsCapped max_len (merge_list lower existing new max_len)
unfolding merge_list last_items
merge_list-IsCapped lower existing new zero positive h = absurd (omega arith)
merge_list-IsCapped lower existing new (suc n) positive h = record {
  short = omega (
    arith,
    length-drop (length (append_new lower existing new) - suc n) (append_new lower existing new),
  );
  distinct = IsDistinct-drop _ _ (append_new-IsDistinct lower new existing h);
}

module _ (config : Config) where
  pub record HasCaps (p : Person) : Type 0 where
    pub organizations : IsCapped config.persona_max_organizations p.organizations
    pub topics : IsCapped config.persona_max_topics p.topics

  abbrev pub AllCapped : State → Type 0
  AllCapped s = All HasCaps s.persons

  find_sender-HasCaps :
      (sender : ℤ) (persons : List Person) (row : Person)
      → All HasCaps persons
      → find_sender sender persons ≡ some row
      → HasCaps row
  unfolding find_sender
  find_sender-HasCaps sender [] row h = λ e. cc
  find_sender-HasCaps sender (p ∷ ps) row h =
      elim (Bool-cases (is_user sender p && not p.blocked)) [
        | inl hit ↦ rw hit (λ e. subst HasCaps (same p row e) h.0)
        | inr miss ↦ rw miss (find_sender-HasCaps sender ps row h.1)
      ]
    where
      same : (p q : Person) → some p ≡ some q → p ≡ q
      same p q e = cc

  module _ (orgs_positive : 0 < config.persona_max_organizations)
      (topics_positive : 0 < config.persona_max_topics) where
    merged_row-HasCaps :
        (row : Person) (orgs topics : List Text) (trust now : ℕ) (p : Person)
        → HasCaps row
        → HasCaps (merged_row config row orgs topics trust now p)
    merged_row-HasCaps row orgs topics trust now p h = record {
      organizations =
          merge_list-IsCapped config.lower _ orgs _ orgs_positive h.organizations.distinct;
      topics = merge_list-IsCapped config.lower _ topics _ topics_positive h.topics.distinct;
    }

    update_row-HasCaps :
        (id : ℕ) (f : Person → Person) (persons : List Person)
        → ((p : Person) → HasCaps (f p))
        → All HasCaps persons
        → All HasCaps (update_row id f persons)
    unfolding update_row
    update_row-HasCaps id f [] caps h = tt
    update_row-HasCaps id f (p ∷ ps) caps h = elim (Bool-cases (p.id == id)) [
      | inl hit ↦ rw hit (caps p, update_row-HasCaps id f ps caps h.1)
      | inr miss ↦ rw miss (h.0, update_row-HasCaps id f ps caps h.1)
    ]

    update_found-AllCapped :
        (orgs topics : List Text) (now : ℕ) (s : State) (found : Option Person)
        → ((row : Person) → found ≡ some row → HasCaps row)
        → AllCapped s
        → AllCapped (update_found config orgs topics now s found).1
    update_found-AllCapped orgs topics now s none row_caps h = h
    update_found-AllCapped orgs topics now s (some row) row_caps h =
        update_row-HasCaps row.id _ s.persons
          (λ p. merged_row-HasCaps row orgs topics _ now p (row_caps row refl)) h

    update_sender-AllCapped :
        (sender : Option ℤ) (orgs topics : List Text) (now : ℕ) (s : State)
        → AllCapped s
        → AllCapped (update_sender config sender orgs topics now s).1
    update_sender-AllCapped none orgs topics now s h = h
    update_sender-AllCapped (some sender) orgs topics now s h =
        update_found-AllCapped orgs topics now s (find_sender sender s.persons)
          (λ row e. find_sender-HasCaps sender s.persons row h e) h

    publish_row-AllCapped :
        (event : EntityFoundEvent) (row : Option Person) (s : State)
        → AllCapped s
        → AllCapped (publish_row event row s)
    publish_row-AllCapped event none s h = h
    publish_row-AllCapped event (some row) s h = h

    publish_person-AllCapped :
        (event : EntityFoundEvent) (id : Option ℕ) (s : State)
        → AllCapped s
        → AllCapped (publish_person event id s)
    publish_person-AllCapped event none s h = h
    publish_person-AllCapped event (some id) s h = publish_row-AllCapped event _ s h

    process_one-AllCapped :
        (payload : Result EntityFoundEvent) (s : State)
        → AllCapped s
        → AllCapped (process_one config payload s)
    unfolding process_one mark_processed update_person_from_event
    process_one-AllCapped (err e) s h = h
    process_one-AllCapped (ok event) s h =
        elim (Bool-cases (
          is_empty (normalized_of is_organization event)
          && is_empty (normalized_of is_topic event))) [
            | inl nothing ↦ rw nothing h
            | inr something ↦ rw something (elim (Bool-cases (is_processed event.event_id s)) [
              | inl seen ↦ rw seen h
              | inr fresh ↦ rw fresh (
                  publish_person-AllCapped event _ _ (
                    update_sender-AllCapped (truthy_id event.tg_sender_id) _ _ event.occurred_at s
                      h))
            ])
          ]

    run_entries-AllCapped :
        (entries : List (Text × Result EntityFoundEvent)) (s : State)
        → AllCapped s
        → AllCapped (run_entries config entries s)
    unfolding run_entries
    run_entries-AllCapped [] s h = h
    run_entries-AllCapped ((msg_id, payload) ∷ entries) s h =
        run_entries-AllCapped entries _ (process_one-AllCapped payload s h)

    -- With positive caps: if each person's lists are within the caps and without repetition, they
    -- are so after any run of the loop.
    pub run-AllCapped :
        (reads : List (Result (List (Text × Result EntityFoundEvent)))) (s : State)
        → AllCapped s
        → AllCapped (run config reads s)
    unfolding run
    run-AllCapped [] s h = h
    run-AllCapped (err e ∷ reads) s h = run-AllCapped reads s h
    run-AllCapped (ok entries ∷ reads) s h =
        run-AllCapped reads _ (run_entries-AllCapped entries s h)
