-- ===== src/TelegramIngestor/Stored.antt =====
-- The raw objects, and the keys under which the events name them.
use personal_intelligence.Base.{
  ◌⊎◌, ◌≡◌, refl, ◌∙◌, ap, true, false, ◌||◌, none, some, List, [], ◌∷◌, ◌++◌, length, Text,
  text_eq, ◌==◌, ==_eq, elem, elem-snoc, Bool-cases, Option-cases, inl, inr, arith,
}
use personal_intelligence.Exec.{Error}
use personal_intelligence.TelegramIngestor.Update.{Message}
use personal_intelligence.TelegramIngestor.Handlers.{
  message_event, State, S3, Stamp, full_key, put_raw, has_raw, persist, publish, event_of,
  storage_key_of, on_business_message,
}

-- The keys differ: the object's begins with "raw/".
key-full_key : (key : Text) → (key == full_key key) ≡ false
key-full_key key = elim (Bool-cases (key == full_key key)) [
  | inr differs ↦ differs
  | inl same ↦ absurd (omega (arith, ap length (==_eq key (full_key key) same)))
]

elem-snoc_other :
    (key other : Text) (keys : List Text)
    → (key == other) ≡ false
    → elem key (keys ++ other ∷ []) ≡ elem key keys
elem-snoc_other key other [] h = rw h refl
elem-snoc_other key other (k ∷ keys) h = ap (λ b. key == k || b) (elem-snoc_other key other keys h)

module _ (s3 : S3) (stamp : Stamp) (m : Message) where
  -- Where the storage is configured and does not raise, the event of a message names a key, and no object
  -- is there under it, if there was none before: the object stands under another key.
  pub raw_key_misses :
      (s : State)
      → s3.is_configured ≡ true
      → s3.put_error (full_key (storage_key_of stamp m)) ≡ none
      → has_raw (storage_key_of stamp m) s ≡ false
      → let after = on_business_message s3 stamp m s in
        (after.published
          ≡ s.published ++ message_event (event_of stamp m) (some (storage_key_of stamp m)) ∷ [])
        × ((has_raw (full_key (storage_key_of stamp m)) after ≡ true)
            × (has_raw (storage_key_of stamp m) after ≡ false))
  unfolding on_business_message persist put_raw publish has_raw
  raw_key_misses s configured works new =
      rw (configured, works)
        (
          refl,
          (
            elem-snoc (full_key (storage_key_of stamp m)) s.objects,
            elem-snoc_other (storage_key_of stamp m) (full_key (storage_key_of stamp m)) s.objects
                  (key-full_key (storage_key_of stamp m))
                ∙ new,
          ),
        )

  -- What a message leaves: one event, with the key of the one object that it stored; or one event
  -- without a key, and an object more only where the storage raised after it had stored it.
  abbrev pub IsIngested : State → State → Type 0
  IsIngested s after =
      let key = full_key (storage_key_of stamp m) in
      ((after.published
          ≡ s.published ++ message_event (event_of stamp m) (some (storage_key_of stamp m)) ∷ [])
        × (after.objects ≡ s.objects ++ key ∷ []))
      ⊎ ((after.published ≡ s.published ++ message_event (event_of stamp m) none ∷ [])
          × ((after.objects ≡ s.objects)
              ⊎ (((e : Error) × (s3.put_error key ≡ some (e, true)))
                  × (after.objects ≡ s.objects ++ key ∷ []))))

  -- Whatever the storage raises, and whether or not it has stored the object by then, a message that the
  -- handler gets leads to exactly one event, of its chat whichever it is. Where the event names a key, one
  -- object was stored; where it names none, no object was, unless the storage raised after the write.
  pub on_business_message-IsIngested : (s : State) → IsIngested s (on_business_message s3 stamp m s)
  unfolding on_business_message persist put_raw publish
  on_business_message-IsIngested s = elim (Bool-cases s3.is_configured) [
    | inr away ↦ rw away (inr (refl, inl refl))
    | inl there ↦ rw there (elim (Option-cases (s3.put_error (full_key (storage_key_of stamp m)))) [
      | inl works ↦ rw works (inl (refl, refl))
      | inr ((e, stored), fails) ↦ rw fails (elim (Bool-cases stored) [
        | inl late ↦ rw late (inr (refl, inr ((e, refl), refl)))
        | inr early ↦ rw early (inr (refl, inl refl))
      ])
    ])
  ]
