-- ===== src/Base/Trim.antt =====
-- What `str.strip` leaves: a text with no space at either end.
use Prim.Native.Nat.{ℕ}
use mathlib.Core.Path.{◌≡◌, refl}
use mathlib.Core.Logic.{inl, inr}
use mathlib.Core.Bool.{Bool, true, not}
use mathlib.Core.List.{[], ◌∷◌}
use personal_intelligence.Base.Tests.{Bool-cases, if◌then◌else◌}
use personal_intelligence.Base.Str.{Text, is_space, lstrip_by, rstrip_by, strip}

abbrev pub first_fails : (ℕ → Bool) → Text → Bool
first_fails p [] = true
first_fails p (c ∷ s) = not (p c)

unfoldable pub last_fails : (ℕ → Bool) → Text → Bool
last_fails p [] = true
last_fails p (c ∷ []) = not (p c)
last_fails p (c ∷ d ∷ s) = last_fails p (d ∷ s)

pub record IsTrimmed (s : Text) : Type 0 where
  pub no_space_first : first_fails is_space s ≡ true
  pub no_space_last : last_fails is_space s ≡ true

module _ (p : ℕ → Bool) where
  first_fails-lstrip_by : (s : Text) → first_fails p (lstrip_by p s) ≡ true
  unfolding lstrip_by
  first_fails-lstrip_by [] = refl
  first_fails-lstrip_by (c ∷ s) = elim (Bool-cases (p c)) [
    | inl space ↦ rw space (first_fails-lstrip_by s)
    | inr kept ↦ rw kept (rw kept refl)
  ]

  onto_kept :
      (c : ℕ) (rest : Text)
      → first_fails p (c ∷ []) ≡ true
      → first_fails p (elim rest [ [] ↦ if p c then [] else c ∷ [] | d ∷ r ↦ c ∷ d ∷ r ]) ≡ true
  onto_kept c [] h = elim (Bool-cases (p c)) [
    | inl space ↦ rw space refl
    | inr kept ↦ rw kept (rw kept refl)
  ]
  onto_kept c (d ∷ r) h = h

  first_fails-rstrip_by : (s : Text) → first_fails p s ≡ true → first_fails p (rstrip_by p s) ≡ true
  unfolding rstrip_by
  first_fails-rstrip_by [] h = refl
  first_fails-rstrip_by (c ∷ s) h = onto_kept c (rstrip_by p s) h

  onto_last :
      (c : ℕ) (rest : Text)
      → last_fails p rest ≡ true
      → last_fails p (elim rest [ [] ↦ if p c then [] else c ∷ [] | d ∷ r ↦ c ∷ d ∷ r ]) ≡ true
  unfolding last_fails
  onto_last c [] h = elim (Bool-cases (p c)) [
    | inl space ↦ rw space refl
    | inr kept ↦ rw kept (rw kept refl)
  ]
  onto_last c (d ∷ r) h = h

  last_fails-rstrip_by : (s : Text) → last_fails p (rstrip_by p s) ≡ true
  unfolding rstrip_by last_fails
  last_fails-rstrip_by [] = refl
  last_fails-rstrip_by (c ∷ s) = onto_last c (rstrip_by p s) (last_fails-rstrip_by s)

pub strip-IsTrimmed : (s : Text) → IsTrimmed (strip s)
unfolding strip
strip-IsTrimmed s = record {
  no_space_first =
      first_fails-rstrip_by is_space (lstrip_by is_space s) (first_fails-lstrip_by is_space s);
  no_space_last = last_fails-rstrip_by is_space (lstrip_by is_space s);
}
