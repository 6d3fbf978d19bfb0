-- ===== src/Exec/Becomes.antt =====
-- A part of the state that one step of an action changes: what `look` reads after the action, where it
-- returns, is `change` of what it read before.
use personal_intelligence.Base.{◌≡◌, refl, ap, ◌∙◌}
use personal_intelligence.Exec.{Result, ok, err, Exec, modify, ◌>>=◌, and_then}
use personal_intelligence.Exec.Leaves.{Leaves}

module _ {ℓ} {S View : Type ℓ} where
  pub record Becomes {A : Type ℓ} (look : S → View) (change : View → View) (action : Exec S A)
      : Type ℓ where
    pub becomes :
        (before : S) (result : A)
        → (action before).0 ≡ ok result
        → look (action before).1 ≡ change (look before)

module _ {ℓ} {S View A B : Type ℓ} {look : S → View} where
  now_and_then :
      (outcome : Result A) (rest : A → Exec S B) (middle : S) (changed : View)
      → ((a : A) → outcome ≡ ok a → look middle ≡ changed)
      → ((a : A) → Leaves look (rest a))
      → (result : B) → (and_then outcome rest middle).0 ≡ ok result
      → look (and_then outcome rest middle).1 ≡ changed
  now_and_then (ok a) rest middle changed changes rests result h =
      (rests a).unchanged middle ∙ changes a refl
  now_and_then (err e) rest middle changed changes rests result h = absurd cc

module _ {ℓ} {S View A B : Type ℓ} {look : S → View} {change : View → View} where
  later_and_then :
      (outcome : Result A) (rest : A → Exec S B) (middle : S)
      → ((a : A) → Becomes look change (rest a))
      → (result : B) → (and_then outcome rest middle).0 ≡ ok result
      → look (and_then outcome rest middle).1 ≡ change (look middle)
  later_and_then (ok a) rest middle rests result h = (rests a).becomes middle result h
  later_and_then (err e) rest middle rests result h = absurd cc

  -- The step comes later in the block.
  pub bind-Becomes_later :
      (first : Exec S A) (rest : A → Exec S B)
      → Leaves look first
      → ((a : A) → Becomes look change (rest a))
      → Becomes look change (first >>= rest)
  unfolding ◌>>=◌
  bind-Becomes_later first rest leaves rests = record {
    becomes = λ before result h.
        later_and_then (first before).0 rest (first before).1 rests result h
        ∙ ap change (leaves.unchanged before);
  }

  -- The step comes first, and the rest of the block leaves the part alone.
  pub bind-Becomes_now :
      (first : Exec S A) (rest : A → Exec S B)
      → Becomes look change first
      → ((a : A) → Leaves look (rest a))
      → Becomes look change (first >>= rest)
  unfolding ◌>>=◌
  bind-Becomes_now first rest changes rests = record {
    becomes = λ before result h.
        now_and_then (first before).0 rest (first before).1 (change (look before))
          (changes.becomes before) rests result h;
  }

module _ {ℓ} {S View : Type ℓ} {look : S → View} {change : View → View} where
  pub modify-Becomes :
      (write : S → S)
      → ((before : S) → look (write before) ≡ change (look before))
      → Becomes look change (modify write)
  unfolding modify
  modify-Becomes write changed = record { becomes = λ before result h. changed before }

pub ruleset becomes_rules = (bind-Becomes_later, bind-Becomes_now, modify-Becomes)
