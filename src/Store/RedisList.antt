-- ===== src/Store/RedisList.antt =====
-- A Redis list under one key, with the time to live that EXPIRE gives it. Times are microseconds.
use personal_intelligence.Base.{
  ℕ, ◌+◌, ◌*◌, ◌≤◌, ◌<◌, ◌≡◌, refl, Bool, false, Option, none, some, List, [], ◌∷◌, ◌++◌, leb,
  if◌then◌else◌, arith, le→leb, leb-false,
}

module _ {ℓ} where
  pub record RedisList (A : Type ℓ) : Type ℓ where
    pub items : List A
    pub expires_at : Option ℕ

module _ {ℓ} {A : Type ℓ} where
  abbrev pub absent : RedisList A
  absent = record { items = []; expires_at = none }

  unfoldable pub is_expired : ℕ → RedisList A → Bool
  is_expired now l = elim l.expires_at [ none ↦ false | some t ↦ leb t now ]

  -- LRANGE key 0 -1
  unfoldable pub lrange : ℕ → RedisList A → List A
  unfolding is_expired
  lrange now l = if is_expired now l then [] else l.items

  -- RPUSH key value: on a key that has expired it starts a new list.
  unfoldable pub rpush : ℕ → A → RedisList A → RedisList A
  unfolding is_expired
  rpush now a l =
      if is_expired now l
      then record { items = a ∷ []; expires_at = none }
      else record l { items = l.items ++ a ∷ [] }

  -- EXPIRE key seconds, on a list that is there
  unfoldable pub expire : ℕ → ℕ → RedisList A → RedisList A
  expire now seconds l = record l { expires_at = some (now + seconds * 1000000) }

  pub lrange-rpush :
      (now : ℕ) (a : A) (l : RedisList A) → lrange now (rpush now a l) ≡ lrange now l ++ a ∷ []
  unfolding lrange rpush
  lrange-rpush now a l = ground arith

  pub lrange-expire_live :
      (now later seconds : ℕ) (l : RedisList A)
      → later < now + seconds * 1000000
      → lrange later (expire now seconds l) ≡ l.items
  unfolding lrange expire
  lrange-expire_live now later seconds l h = rw (leb-false (now + seconds * 1000000) later h)

  pub lrange-expire_dead :
      (now later seconds : ℕ) (l : RedisList A)
      → now + seconds * 1000000 ≤ later
      → lrange later (expire now seconds l) ≡ []
  unfolding lrange expire
  lrange-expire_dead now later seconds l h = rw (le→leb (now + seconds * 1000000) later h)

  -- What a push leaves in the list, once it has been given a time to live.
  pub lrange-expire-rpush :
      (now seconds : ℕ) (a : A) (l : RedisList A)
      → 0 < seconds
      → lrange now (expire now seconds (rpush now a l)) ≡ lrange now l ++ a ∷ []
  unfolding lrange rpush expire
  lrange-expire-rpush now seconds a l h =
      rw (leb-false (now + seconds * 1000000) now (omega arith)) (ground arith)

  pub lrange-absent : (now : ℕ) → lrange now absent ≡ []
  unfolding lrange
  lrange-absent now = refl
