-- ===== src/Exec.antt =====
-- Handlers that change a state and may raise. A state written before a raise stays written, as in
-- the services, where only a transaction takes it back.
pub mod Leaves
pub mod Ensures
pub mod Preserves
pub mod OnError
pub mod Becomes
use personal_intelligence.Base.{◌≡◌, refl, ◌⊎◌, inl, inr, Bool, Text, List, [], ◌∷◌, if◌then◌else◌}

-- What the handlers raise, by where it comes from. `str(exc)` is kept beside it.
pub data Error : Type 0 where
  invalid_payload analysis_failed summary_failed storage_failed : Text → Error

pub data Result {ℓ} (A : Type ℓ) : Type ℓ where
  ok : A → Result A
  err : Error → Result A

pub Result-cases {ℓ} :
    {A : Type ℓ} (r : Result A) → ((e : Error) × (r ≡ err e)) ⊎ ((a : A) × (r ≡ ok a))
Result-cases (ok a) = inr (a, refl)
Result-cases (err e) = inl (e, refl)

-- A property of what is returned, if it is
abbrev pub Holds {ℓ κ} : {A : Type ℓ} → (A → Type κ) → Result A → Type κ
Holds P (ok a) = P a
Holds P (err e) = Unit

-- A call that returns, and does not raise
abbrev pub Returns {ℓ} : {A : Type ℓ} → Result A → Type ℓ
Returns {A = A} r = (a : A) × (r ≡ ok a)

abbrev pub Exec {ℓ} : Type ℓ → Type ℓ → Type ℓ
Exec S A = S → Result A × S

module _ {ℓ} {S A : Type ℓ} where
  unfoldable pub pure : A → Exec S A
  pure a s = (ok a, s)

  unfoldable pub raise : Error → Exec S A
  raise e s = (err e, s)

  unfoldable pub lift : Result A → Exec S A
  lift r s = (r, s)

  unfoldable pub gets : (S → A) → Exec S A
  gets f s = (ok (f s), s)

module _ {ℓ} {S : Type ℓ} where
  unfoldable pub modify : (S → S) → Exec S (Unit {ℓ})
  modify f s = (ok tt, f s)

module _ {ℓ} {S A B : Type ℓ} where
  abbrev pub and_then : Result A → (A → Exec S B) → Exec S B
  and_then (ok a) f s = f a s
  and_then (err e) f s = (err e, s)

  infixl 10 ◌>>=◌ ◌>>◌
  unfoldable pub ◌>>=◌ : Exec S A → (A → Exec S B) → Exec S B
  unfolding pure raise lift gets modify
  ◌>>=◌ m f s = let (r, s') = m s in and_then r f s'

  abbrev pub ◌>>◌ : Exec S A → Exec S B → Exec S B
  m >> n = m >>= λ _. n

module _ {S : Type 0} where
  -- `if test: body`, and on with the rest
  abbrev pub when : Bool → Exec S Unit → Exec S Unit
  when b m = if b then m else pure tt

  -- `for x in xs: body`
  unfoldable pub for_each : {A : Type 0} → (A → Exec S Unit) → List A → Exec S Unit
  for_each f [] = pure tt
  for_each f (x ∷ xs) = do f x; for_each f xs

module _ {ℓ} {S A B : Type ℓ} (m : Exec S A) (f : A → Exec S B) (s : S) where
  pub bind-of_ok : (a : A) → (m s).0 ≡ ok a → (m >>= f) s ≡ f a (m s).1
  unfolding ◌>>=◌
  bind-of_ok a h = rw h

  pub bind-of_err : (e : Error) → (m s).0 ≡ err e → (m >>= f) s ≡ (err e, (m s).1)
  unfolding ◌>>=◌
  bind-of_err e h = rw h
