-- ===== src/Exec/Leaves.antt =====
-- Parts of the state that an action does not touch: what `look` reads is the same before and after it,
-- also where the action raises.
use personal_intelligence.Base.{◌≡◌, refl, ◌∙◌, Bool, true, false, List, [], ◌∷◌, if◌then◌else◌}
use personal_intelligence.Exec.{
  Result, ok, err, Exec, pure, lift, gets, modify, ◌>>=◌, and_then, for_each,
}

module _ {ℓ} {S View : Type ℓ} where
  pub record Leaves {A : Type ℓ} (look : S → View) (action : Exec S A) : Type ℓ where
    pub unchanged : (before : S) → look (action before).1 ≡ look before

module _ {ℓ} {S View A : Type ℓ} {look : S → View} where
  pub pure-Leaves : (result : A) → Leaves look (pure result)
  unfolding pure
  pure-Leaves result = record { unchanged = λ before. refl }

  pub lift-Leaves : (outcome : Result A) → Leaves look (lift outcome)
  unfolding lift
  lift-Leaves outcome = record { unchanged = λ before. refl }

  pub gets-Leaves : (read : S → A) → Leaves look (gets read)
  unfolding gets
  gets-Leaves read = record { unchanged = λ before. refl }

  pub if-Leaves :
      (test : Bool) (yes_part no_part : Exec S A)
      → Leaves look yes_part
      → Leaves look no_part
      → Leaves look (if test then yes_part else no_part)
  if-Leaves true yes_part no_part left right = left
  if-Leaves false yes_part no_part left right = right

module _ {ℓ} {S View : Type ℓ} {look : S → View} where
  pub modify-Leaves :
      (write : S → S)
      → ((before : S) → look (write before) ≡ look before)
      → Leaves look (modify write)
  unfolding modify
  modify-Leaves write untouched = record { unchanged = untouched }

module _ {ℓ} {S View A B : Type ℓ} {look : S → View} where
  and_then-Leaves :
      (outcome : Result A) (rest : A → Exec S B) (middle : S)
      → ((a : A) → Leaves look (rest a))
      → look (and_then outcome rest middle).1 ≡ look middle
  and_then-Leaves (ok a) rest middle rests = (rests a).unchanged middle
  and_then-Leaves (err e) rest middle rests = refl

  pub bind-Leaves :
      (first : Exec S A) (rest : A → Exec S B)
      → Leaves look first
      → ((a : A) → Leaves look (rest a))
      → Leaves look (first >>= rest)
  unfolding ◌>>=◌
  bind-Leaves first rest leaves rests = record {
    unchanged = λ before.
        and_then-Leaves (first before).0 rest (first before).1 rests ∙ leaves.unchanged before;
  }

module _ {S View A : Type 0} {look : S → View} where
  pub for_each-Leaves :
      (body : A → Exec S Unit) (items : List A)
      → ((item : A) → Leaves look (body item))
      → Leaves look (for_each body items)
  unfolding for_each
  for_each-Leaves body [] bodies = pure-Leaves tt
  for_each-Leaves body (item ∷ items) bodies =
      bind-Leaves (body item) _ (bodies item) (λ _. for_each-Leaves body items bodies)

pub ruleset leaves_rules =
    (bind-Leaves, for_each-Leaves, if-Leaves, modify-Leaves, gets-Leaves, lift-Leaves, pure-Leaves)
