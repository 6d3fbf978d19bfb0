-- ===== src/Exec/OnError.antt =====
-- Parts of the state that are as before wherever an action raises.
use personal_intelligence.Base.{◌≡◌, refl, ◌∙◌}
use personal_intelligence.Exec.{Error, Result, ok, err, Exec, modify, ◌>>=◌, and_then}
use personal_intelligence.Exec.Leaves.{Leaves}

module _ {ℓ} {S View : Type ℓ} where
  pub record LeavesOnError {A : Type ℓ} (look : S → View) (action : Exec S A) : Type ℓ where
    pub kept :
        (before : S) (e : Error) → (action before).0 ≡ err e → look (action before).1 ≡ look before

module _ {ℓ} {S View A : Type ℓ} {look : S → View} where
  pub Leaves-LeavesOnError : (action : Exec S A) → Leaves look action → LeavesOnError look action
  Leaves-LeavesOnError action leaves = record { kept = λ before e h. leaves.unchanged before }

module _ {ℓ} {S View : Type ℓ} {look : S → View} where
  -- A write does not raise.
  pub modify-LeavesOnError : (write : S → S) → LeavesOnError look (modify write)
  unfolding modify
  modify-LeavesOnError write = record { kept = λ before e h. absurd cc }

module _ {ℓ} {S View A B : Type ℓ} {look : S → View} where
  and_then-LeavesOnError :
      (outcome : Result A) (rest : A → Exec S B) (middle : S)
      → ((a : A) → LeavesOnError look (rest a))
      → (e : Error) → (and_then outcome rest middle).0 ≡ err e
      → look (and_then outcome rest middle).1 ≡ look middle
  and_then-LeavesOnError (ok a) rest middle rests e h = (rests a).kept middle e h
  and_then-LeavesOnError (err e') rest middle rests e h = refl

  -- What a block writes before its last step is of other parts.
  pub bind-LeavesOnError :
      (first : Exec S A) (rest : A → Exec S B)
      → Leaves look first
      → ((a : A) → LeavesOnError look (rest a))
      → LeavesOnError look (first >>= rest)
  unfolding ◌>>=◌
  bind-LeavesOnError first rest leaves rests = record {
    kept = λ before e h.
        and_then-LeavesOnError (first before).0 rest (first before).1 rests e h
        ∙ leaves.unchanged before;
  }
