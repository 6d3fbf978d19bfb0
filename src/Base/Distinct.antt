-- ===== src/Base/Distinct.antt =====
-- Lists in which nothing stands twice, for a type with a Boolean equality.
use mathlib.Core.Path.{◌≡◌, refl}
use mathlib.Core.Logic.{inl, inr}
use mathlib.Core.Bool.{true, false}
use mathlib.Core.List.{List, [], ◌∷◌, ◌++◌}
use native.Mathlib.Omega.{arith}
use personal_intelligence.Base.Tests.{Eq, ◌==◌, ==_refl, Bool-cases, if◌then◌else◌}
use personal_intelligence.Base.Lists.{All, All-append, elem}

module _ {A : Type 0} ⦃e : Eq A⦄ where
  -- No later item equals an earlier one.
  abbrev pub AreDistinct : List A → Type 0
  AreDistinct [] = Unit
  AreDistinct (x ∷ xs) = All (λ y. (y == x) ≡ false) xs × AreDistinct xs

  -- `set(xs)`, as a list of its items
  unfoldable pub as_set : List A → List A
  as_set [] = []
  as_set (x ∷ xs) = let rest = as_set xs in if elem x rest then rest else x ∷ rest

  pub AreDistinct-snoc :
      (xs : List A) (a : A) → elem a xs ≡ false → AreDistinct xs → AreDistinct (xs ++ a ∷ [])
  AreDistinct-snoc [] a new h = (tt, tt)
  AreDistinct-snoc (x ∷ xs) a new h =
      (All-append _ xs _ h.0 (ground arith, tt), AreDistinct-snoc xs a (ground arith) h.1)

  pub elem-append_left : (a : A) (xs ys : List A) → elem a xs ≡ true → elem a (xs ++ ys) ≡ true
  elem-append_left a [] ys = λ h. absurd cc
  elem-append_left a (x ∷ xs) ys = elim (Bool-cases (a == x)) [
    | inl hit ↦ rw hit (λ h. refl)
    | inr miss ↦ rw miss (elem-append_left a xs ys)
  ]

  pub elem-snoc : (a : A) (xs : List A) → elem a (xs ++ a ∷ []) ≡ true
  elem-snoc a [] = rw (==_refl a) refl
  elem-snoc a (x ∷ xs) = elim (Bool-cases (a == x)) [
    | inl hit ↦ rw hit refl
    | inr miss ↦ rw miss (elem-snoc a xs)
  ]
