-- ===== src/Exec/Ensures.antt =====
-- What holds of the state wherever an action returns.
use personal_intelligence.Base.{◌≡◌}
use personal_intelligence.Exec.{Result, ok, err, Exec, ◌>>=◌, and_then}

module _ {ℓ} {S : Type ℓ} where
  pub record Ensures {A : Type ℓ} (Post : S → Type ℓ) (action : Exec S A) : Type ℓ where
    pub holds : (before : S) (result : A) → (action before).0 ≡ ok result → Post (action before).1

module _ {ℓ} {S A B : Type ℓ} {Post : S → Type ℓ} where
  and_then-Ensures :
      (outcome : Result A) (rest : A → Exec S B) (middle : S)
      → ((a : A) → Ensures Post (rest a))
      → (result : B) → (and_then outcome rest middle).0 ≡ ok result
      → Post (and_then outcome rest middle).1
  and_then-Ensures (ok a) rest middle rests result h = (rests a).holds middle result h
  and_then-Ensures (err e) rest middle rests result h = absurd cc

  -- A block ensures what each end of it ensures.
  pub bind-Ensures :
      (first : Exec S A) (rest : A → Exec S B)
      → ((a : A) → Ensures Post (rest a))
      → Ensures Post (first >>= rest)
  unfolding ◌>>=◌
  bind-Ensures first rest rests = record {
    holds = λ before. and_then-Ensures (first before).0 rest (first before).1 rests;
  }
