-- ===== src/Exec/Preserves.antt =====
-- Properties of the state that an action preserves, whether it returns or raises.
use personal_intelligence.Base.{◌≡◌, refl, Bool, true, false, if◌then◌else◌}
use personal_intelligence.Exec.{Result, ok, err, Exec, pure, lift, gets, ◌>>=◌, and_then}

module _ {ℓ} {S : Type ℓ} where
  pub record Preserves {A : Type ℓ} (Inv : S → Type ℓ) (action : Exec S A) : Type ℓ where
    pub preserved : (before : S) → Inv before → Inv (action before).1

module _ {ℓ} {S A : Type ℓ} {Inv : S → Type ℓ} where
  -- An action that writes nothing
  pub reads-Preserves :
      (action : Exec S A) → ((before : S) → (action before).1 ≡ before) → Preserves Inv action
  reads-Preserves action quiet = record { preserved = λ before inv. rw (quiet before) inv }

  pub pure-Preserves : (result : A) → Preserves Inv (pure result)
  unfolding pure
  pure-Preserves result = reads-Preserves (pure result) (λ before. refl)

  pub lift-Preserves : (outcome : Result A) → Preserves Inv (lift outcome)
  unfolding lift
  lift-Preserves outcome = reads-Preserves (lift outcome) (λ before. refl)

  pub gets-Preserves : (read : S → A) → Preserves Inv (gets read)
  unfolding gets
  gets-Preserves read = reads-Preserves (gets read) (λ before. refl)

  pub if-Preserves :
      (test : Bool) (yes_part no_part : Exec S A)
      → Preserves Inv yes_part
      → Preserves Inv no_part
      → Preserves Inv (if test then yes_part else no_part)
  if-Preserves true yes_part no_part left right = left
  if-Preserves false yes_part no_part left right = right

module _ {ℓ} {S A B : Type ℓ} {Inv : S → Type ℓ} where
  and_then-Preserves :
      (outcome : Result A) (rest : A → Exec S B) (middle : S)
      → ((a : A) → Preserves Inv (rest a))
      → Inv middle
      → Inv (and_then outcome rest middle).1
  and_then-Preserves (ok a) rest middle rests inv = (rests a).preserved middle inv
  and_then-Preserves (err e) rest middle rests inv = inv

  pub bind-Preserves :
      (first : Exec S A) (rest : A → Exec S B)
      → Preserves Inv first
      → ((a : A) → Preserves Inv (rest a))
      → Preserves Inv (first >>= rest)
  unfolding ◌>>=◌
  bind-Preserves first rest starts rests = record {
    preserved = λ before inv.
        and_then-Preserves (first before).0 rest (first before).1 rests
          (starts.preserved before inv);
  }

pub ruleset preserves_rules =
    (bind-Preserves, if-Preserves, gets-Preserves, lift-Preserves, pure-Preserves)
