-- ===== src/MemoryProjector/Participants.antt =====
-- The participants of a window, as `_ensure_participants` gathers them.
use personal_intelligence.Base.{
  ℕ, ◌≡◌, refl, ap, ◌∙◌, Bool, false, ◌||◌, ◌==◌, ==_eq, Option, none, some, List, [], ◌∷◌, ◌++◌,
  map, Text, ℤ, int_eq, elem, AreDistinct, AreDistinct-snoc, Bool-cases, inl, inr, take,
}
use personal_intelligence.Contracts.{WindowMessagePayload, ProjectionCommand}
use personal_intelligence.MemoryProjector.Tables.{Db}
use personal_intelligence.MemoryProjector.Owner.{Settings}
use personal_intelligence.MemoryProjector.People.{
  keys_of, ensure_person, add_sender, add_senders, ensure_participants,
}

-- Who sent a message, read from the messages.
abbrev pub is_sender : ℤ → Option ℤ → Bool
is_sender user none = false
is_sender user (some sender) = user == sender

unfoldable pub has_sent : ℤ → List WindowMessagePayload → Bool
has_sent user [] = false
has_sent user (m ∷ ms) = is_sender user m.tg_sender_id || has_sent user ms

elem_snoc_lem :
    (user new : ℤ) (keys : List ℤ) → elem user (keys ++ new ∷ []) ≡ (elem user keys || user == new)
elem_snoc_lem user new [] = elim (Bool-cases (user == new)) [
  | inl hit ↦ rw hit refl
  | inr miss ↦ rw miss refl
]
elem_snoc_lem user new (k ∷ keys) = elim (Bool-cases (user == k)) [
  | inl hit ↦ rw hit refl
  | inr miss ↦ rw miss (elem_snoc_lem user new keys)
]

map-append :
    (ps : List (ℤ × ℕ)) (p : ℤ × ℕ) → map (λ q. q.0) (ps ++ p ∷ []) ≡ map (λ q. q.0) ps ++ p.0 ∷ []
map-append [] p = refl
map-append (q ∷ ps) p = ap (λ rest. q.0 ∷ rest) (map-append ps p)

module _ (settings : Settings) (chat : ℕ) (topics : List Text) where
  add_sender-AreDistinct :
      (m : WindowMessagePayload) (sender : Option ℤ) (ps : List (ℤ × ℕ)) (db : Db)
      → AreDistinct (keys_of settings ps)
      → AreDistinct (keys_of settings (add_sender settings chat topics m sender ps db).0)
  add_sender-AreDistinct m none ps db h = h
  add_sender-AreDistinct m (some user) ps db h =
      elim (Bool-cases (elem user (keys_of settings ps))) [
        | inl known ↦ rw known h
        | inr new ↦ rw new (
            rw (map-append ps (user, (ensure_person settings m user topics db).0))
              (AreDistinct-snoc (keys_of settings ps) user new h))
      ]

  elem-add_sender :
      (user : ℤ) (m : WindowMessagePayload) (sender : Option ℤ) (ps : List (ℤ × ℕ)) (db : Db)
      → elem user (keys_of settings (add_sender settings chat topics m sender ps db).0)
        ≡ (elem user (keys_of settings ps) || is_sender user sender)
  elem-add_sender user m none ps db = elim (Bool-cases (elem user (keys_of settings ps))) [
    | inl here ↦ rw here refl
    | inr away ↦ rw away refl
  ]
  elem-add_sender user m (some new) ps db = elim (Bool-cases (elem new (keys_of settings ps))) [
    | inr fresh ↦ rw fresh (
        rw (map-append ps (new, (ensure_person settings m new topics db).0))
          (elem_snoc_lem user new (keys_of settings ps)))
    | inl known ↦ rw known (elim (Bool-cases (user == new)) [
      | inl hit ↦
          rw hit (rw (ap (λ k. elem k (keys_of settings ps)) (==_eq user new hit) ∙ known) refl)
      | inr miss ↦ rw miss (elim (Bool-cases (elem user (keys_of settings ps))) [
        | inl here ↦ rw here refl
        | inr away ↦ rw away refl
      ])
    ])
  ]

  add_senders-AreDistinct :
      (ms : List WindowMessagePayload) (ps : List (ℤ × ℕ)) (db : Db)
      → AreDistinct (keys_of settings ps)
      → AreDistinct (keys_of settings (add_senders settings chat topics ms ps db).0)
  unfolding add_senders
  add_senders-AreDistinct [] ps db h = h
  add_senders-AreDistinct (m ∷ ms) ps db h =
      add_senders-AreDistinct ms _ _ (add_sender-AreDistinct m m.tg_sender_id ps db h)

  elem-add_senders :
      (user : ℤ) (ms : List WindowMessagePayload) (ps : List (ℤ × ℕ)) (db : Db)
      → elem user (keys_of settings (add_senders settings chat topics ms ps db).0)
        ≡ (elem user (keys_of settings ps) || has_sent user ms)
  unfolding add_senders has_sent
  elem-add_senders user [] ps db = elim (Bool-cases (elem user (keys_of settings ps))) [
    | inl here ↦ rw here refl
    | inr away ↦ rw away refl
  ]
  elem-add_senders user (m ∷ ms) ps db =
      elem-add_senders user ms (add_sender settings chat topics m m.tg_sender_id ps db).0
        (add_sender settings chat topics m m.tg_sender_id ps db).1
      ∙ rw (elem-add_sender user m m.tg_sender_id ps db)
          (elim (Bool-cases (elem user (keys_of settings ps))) [
            | inl here ↦ rw here refl
            | inr away ↦ rw away refl
          ])

-- The participants of a command are the senders of its messages, each once: no Telegram id stands twice,
-- and a user is among them just if one of the messages has that user as its sender.
pub ensure_participants_lem :
    (settings : Settings) (chat : ℕ) (command : ProjectionCommand) (db : Db)
    → AreDistinct (keys_of settings (ensure_participants settings chat command db).0)
      × ((user : ℤ)
          → elem user (keys_of settings (ensure_participants settings chat command db).0)
            ≡ has_sent user command.messages)
unfolding ensure_participants
ensure_participants_lem settings chat command db = (
  add_senders-AreDistinct settings chat (take 8 command.result.topics) command.messages [] db tt,
  λ user. elem-add_senders settings chat (take 8 command.result.topics) user command.messages [] db,
)
