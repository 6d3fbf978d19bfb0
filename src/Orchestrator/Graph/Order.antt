-- ===== src/Orchestrator/Graph/Order.antt =====
-- What `normalize_window` of graph.py makes of a window: the messages in the order of their keys,
-- one for each id.
use personal_intelligence.Base.{
  ◌≡◌, refl, ap, ◌∙◌, inl, inr, true, false, not, ◌&&◌, ◌||◌, List, [], ◌∷◌, map, ℤ, int_eq, ◌==◌,
  ==_eq, ==_refl, elem, All, leb_int, Bool-cases, arith,
}
use personal_intelligence.Contracts.{WindowMessagePayload}
use personal_intelligence.Orchestrator.Graph.Normalize.{
  key_le, insert_message, sort_messages, dedup, normalize_messages,
}

abbrev pub ids : List WindowMessagePayload → List ℤ
ids ms = map (λ m. m.tg_message_id) ms

-- Every message comes before all that follow it, by time and then by id.
abbrev pub IsOrdered : List WindowMessagePayload → Type 0
IsOrdered [] = Unit
IsOrdered (m ∷ ms) = All (λ n. key_le m n ≡ true) ms × IsOrdered ms

-- No two messages have one id.
abbrev pub IsDistinct : List WindowMessagePayload → Type 0
IsDistinct [] = Unit
IsDistinct (m ∷ ms) = (elem m.tg_message_id (ids ms) ≡ false) × IsDistinct ms

leb_int_total : (a b : ℤ) → leb_int a b ≡ false → leb_int b a ≡ true
unfolding leb_int
leb_int_total a b h = ground arith

leb_int_trans : (a b c : ℤ) → leb_int a b ≡ true → leb_int b c ≡ true → leb_int a c ≡ true
unfolding leb_int
leb_int_trans a b c h k = ground arith

key_le_total : (m n : WindowMessagePayload) → key_le m n ≡ false → key_le n m ≡ true
unfolding key_le
key_le_total m n h = ground (arith, leb_int_total m.tg_message_id n.tg_message_id)

key_le_trans :
    (l m n : WindowMessagePayload) → key_le l m ≡ true → key_le m n ≡ true → key_le l n ≡ true
unfolding key_le
key_le_trans l m n h k =
    ground (arith, leb_int_trans l.tg_message_id m.tg_message_id n.tg_message_id)

module _ (P : WindowMessagePayload → Type 0) where
  All-insert_message :
      (m : WindowMessagePayload) (ns : List WindowMessagePayload)
      → P m
      → All P ns
      → All P (insert_message m ns)
  unfolding insert_message
  All-insert_message m [] h hs = (h, tt)
  All-insert_message m (n ∷ ns) h hs = elim (Bool-cases (key_le m n)) [
    | inl first ↦ rw first (h, hs)
    | inr later ↦ rw later (hs.0, All-insert_message m ns h hs.1)
  ]

  All-sort_messages : (ms : List WindowMessagePayload) → All P ms → All P (sort_messages ms)
  unfolding sort_messages
  All-sort_messages [] h = tt
  All-sort_messages (m ∷ ms) h = All-insert_message m _ h.0 (All-sort_messages ms h.1)

  All-dedup : (seen : List ℤ) (ms : List WindowMessagePayload) → All P ms → All P (dedup seen ms)
  unfolding dedup
  All-dedup seen [] h = tt
  All-dedup seen (m ∷ ms) h = elim (Bool-cases (elem m.tg_message_id seen)) [
    | inl old ↦ rw old (All-dedup seen ms h.1)
    | inr new ↦ rw new (h.0, All-dedup (m.tg_message_id ∷ seen) ms h.1)
  ]

All-map :
    (P Q : WindowMessagePayload → Type 0) (ms : List WindowMessagePayload)
    → ((n : WindowMessagePayload) → P n → Q n)
    → All P ms
    → All Q ms
All-map P Q [] f h = tt
All-map P Q (m ∷ ms) f h = (f m h.0, All-map P Q ms f h.1)

IsOrdered-insert_message :
    (m : WindowMessagePayload) (ns : List WindowMessagePayload)
    → IsOrdered ns
    → IsOrdered (insert_message m ns)
unfolding insert_message
IsOrdered-insert_message m [] h = (tt, tt)
IsOrdered-insert_message m (n ∷ ns) h = elim (Bool-cases (key_le m n)) [
  | inl first ↦ rw first ((first, All-map _ _ ns (λ k le. key_le_trans m n k first le) h.0), h)
  | inr later ↦ rw later (
    All-insert_message (λ k. key_le n k ≡ true) m ns (key_le_total m n later) h.0,
    IsOrdered-insert_message m ns h.1,
  )
]

IsOrdered-sort_messages : (ms : List WindowMessagePayload) → IsOrdered (sort_messages ms)
unfolding sort_messages
IsOrdered-sort_messages [] = tt
IsOrdered-sort_messages (m ∷ ms) = IsOrdered-insert_message m _ (IsOrdered-sort_messages ms)

IsOrdered-dedup :
    (seen : List ℤ) (ms : List WindowMessagePayload) → IsOrdered ms → IsOrdered (dedup seen ms)
unfolding dedup
IsOrdered-dedup seen [] h = tt
IsOrdered-dedup seen (m ∷ ms) h = elim (Bool-cases (elem m.tg_message_id seen)) [
  | inl old ↦ rw old (IsOrdered-dedup seen ms h.1)
  | inr new ↦ rw new (
    All-dedup (λ n. key_le m n ≡ true) (m.tg_message_id ∷ seen) ms h.0,
    IsOrdered-dedup (m.tg_message_id ∷ seen) ms h.1,
  )
]

module _ (i : ℤ) where
  elem-insert_message :
      (m : WindowMessagePayload) (ns : List WindowMessagePayload)
      → elem i (ids (insert_message m ns)) ≡ (i == m.tg_message_id || elem i (ids ns))
  unfolding insert_message
  elem-insert_message m [] = refl
  elem-insert_message m (n ∷ ns) = ground (arith, elem-insert_message m ns)

  elem-sort_messages :
      (ms : List WindowMessagePayload) → elem i (ids (sort_messages ms)) ≡ elem i (ids ms)
  unfolding sort_messages
  elem-sort_messages [] = refl
  elem-sort_messages (m ∷ ms) =
      elem-insert_message m (sort_messages ms)
      ∙ ap (λ b. i == m.tg_message_id || b) (elem-sort_messages ms)

  elem_same : (j : ℤ) (seen : List ℤ) → (i == j) ≡ true → elem i seen ≡ elem j seen
  elem_same j seen h = ap (λ k. elem k seen) (==_eq i j h)

  elem-dedup :
      (seen : List ℤ) (ms : List WindowMessagePayload)
      → elem i (ids (dedup seen ms)) ≡ (elem i (ids ms) && not (elem i seen))
  unfolding dedup
  elem-dedup seen [] = refl
  elem-dedup seen (m ∷ ms) = ground (
    arith,
    elem-dedup seen ms,
    elem-dedup (m.tg_message_id ∷ seen) ms,
    elem_same m.tg_message_id seen,
  )

IsDistinct-dedup : (seen : List ℤ) (ms : List WindowMessagePayload) → IsDistinct (dedup seen ms)
unfolding dedup
IsDistinct-dedup seen [] = tt
IsDistinct-dedup seen (m ∷ ms) = elim (Bool-cases (elem m.tg_message_id seen)) [
  | inl old ↦ rw old (IsDistinct-dedup seen ms)
  | inr new ↦ rw new (
    elem-dedup m.tg_message_id (m.tg_message_id ∷ seen) ms
        ∙ (rw (==_refl m.tg_message_id) (ground arith)),
    IsDistinct-dedup (m.tg_message_id ∷ seen) ms,
  )
]

-- A normalised window is in the order of its keys, has one message for each id, has the ids of the
-- messages that were given, and no message but those.
pub normalize_messages_lem :
    (ms : List WindowMessagePayload)
    → IsOrdered (normalize_messages ms)
      × IsDistinct (normalize_messages ms)
      × ((i : ℤ) → elem i (ids (normalize_messages ms)) ≡ elem i (ids ms))
      × ((P : WindowMessagePayload → Type 0) → All P ms → All P (normalize_messages ms))
unfolding normalize_messages
normalize_messages_lem ms = (
  IsOrdered-dedup [] (sort_messages ms) (IsOrdered-sort_messages ms),
  IsDistinct-dedup [] (sort_messages ms),
  λ i. elem-dedup i [] (sort_messages ms) ∙ ground (arith, elem-sort_messages i ms),
  λ P h. All-dedup P [] (sort_messages ms) (All-sort_messages P ms h),
)
