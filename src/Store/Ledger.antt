-- ===== src/Store/Ledger.antt =====
-- The table `processed_event`, by which a consumer knows the events that it has handled. Every
-- service has its own copy of the two queries, which differ in the consumer's name alone.
use personal_intelligence.Base.{
  ◌≡◌, Bool, true, false, ◌&&◌, ◌||◌, List, [], ◌∷◌, Text, ◌==◌, text_eq, arith, ==_refl, ==_eq,
}

pub record Row : Type 0 where
  pub consumer_name : Text
  pub event_id : Text

abbrev pub Ledger : Type 0
Ledger = List Row

-- SELECT 1 FROM processed_event WHERE consumer_name = $1 AND event_id = $2 LIMIT 1
unfoldable pub is_processed : Text → Text → Ledger → Bool
is_processed consumer event [] = false
is_processed consumer event (r ∷ rows) =
    (r.consumer_name == consumer && r.event_id == event) || is_processed consumer event rows

-- INSERT INTO processed_event (consumer_name, event_id) VALUES ($1, $2) ON CONFLICT DO NOTHING.
-- The key has the time of the insertion too, so the row is added also where one is there.
unfoldable pub mark_processed : Text → Text → Ledger → Ledger
mark_processed consumer event rows = record { consumer_name = consumer; event_id = event } ∷ rows

module _ (consumer event : Text) (rows : Ledger) where
  pub is_processed-mark_processed :
      is_processed consumer event (mark_processed consumer event rows) ≡ true
  unfolding is_processed mark_processed
  is_processed-mark_processed = rw (==_refl consumer, ==_refl event)

  pub is_processed-mark_other :
      (c e : Text)
      → is_processed consumer event rows ≡ true
      → is_processed consumer event (mark_processed c e rows) ≡ true
  unfolding is_processed mark_processed
  is_processed-mark_other c e h = ground arith

  -- Marking an event changes the answer for no other event and no other consumer.
  pub is_processed-mark_ne :
      (c e : Text)
      → is_processed consumer event (mark_processed c e rows) ≡ true
      → is_processed consumer event rows ≡ false
      → (c ≡ consumer) × (e ≡ event)
  unfolding is_processed mark_processed
  is_processed-mark_ne c e h fresh = ground (arith, ==_eq c consumer, ==_eq e event)
