-- ===== src/Base/Ids.antt =====
-- The integers by which Telegram names chats, users and messages. They may be negative, and are
-- only compared for equality and order.
use Prim.Native.Nat.{ℕ}
use mathlib.Core.Path.{◌≡◌}
use mathlib.Core.Logic.{◌↔◌}
use mathlib.Core.Bool.{Bool, true, false}
use mathlib.Core.List.{List, [], ◌∷◌}
use mathlib.Core.Option.{Option, none, some}
use native.Mathlib.Omega.{arith}
use personal_intelligence.Base.Tests.{Eq, eqb, leb, ◌==◌, if◌then◌else◌}

-- `negsuc n` is -(n + 1).
pub data ℤ : Type 0 where
  pos : ℕ → ℤ
  negsuc : ℕ → ℤ

unfoldable pub same_int : ℤ → ℤ → Bool
same_int (pos a) (pos b) = eqb a b
same_int (negsuc a) (negsuc b) = eqb a b
same_int (pos a) (negsuc b) = false
same_int (negsuc a) (pos b) = false

unfoldable pub leb_int : ℤ → ℤ → Bool
leb_int (pos a) (pos b) = leb a b
leb_int (negsuc a) (negsuc b) = leb b a
leb_int (pos a) (negsuc b) = false
leb_int (negsuc a) (pos b) = true

pub same_int_iff : (a b : ℤ) → (same_int a b ≡ true) ↔ (a ≡ b)
unfolding same_int
same_int_iff a b = ground arith

instance abbrev pub int_eq : Eq ℤ
int_eq = record { test = same_int; decides = same_int_iff }

-- The truth value of an id that may be missing: 0 counts as missing too.
abbrev pub truthy_id : Option ℤ → Option ℤ
truthy_id none = none
truthy_id (some i) = if i == pos 0 then none else some i

-- `sorted` of integers
unfoldable pub insert_int : ℤ → List ℤ → List ℤ
unfolding leb_int
insert_int a [] = a ∷ []
insert_int a (b ∷ bs) = if leb_int a b then a ∷ b ∷ bs else b ∷ insert_int a bs

unfoldable pub sort_ints : List ℤ → List ℤ
unfolding insert_int
sort_ints [] = []
sort_ints (a ∷ bs) = insert_int a (sort_ints bs)
