-- ===== src/Base/Decimal.antt =====
-- `str` of an integer. A number has at most as many digits as it counts, or one.
use Prim.Native.Nat.{ℕ, zero, suc, ◌+◌, ◌/◌, ◌%◌}
use mathlib.Core.List.{[], ◌∷◌}
use personal_intelligence.Base.Tests.{ltb, if◌then◌else◌}
use personal_intelligence.Base.Ids.{ℤ, pos, negsuc}
use personal_intelligence.Base.Str.{Text}

digits_onto : ℕ → ℕ → Text → Text
digits_onto zero n acc = acc
digits_onto (suc fuel) n acc =
    let last = (n % 10 + 48) ∷ acc in
    let rest = digits_onto fuel (n / 10) last in if ltb n 10 then last else rest

unfoldable pub show_nat : ℕ → Text
unfolding digits_onto
show_nat n = digits_onto (suc n) n []

unfoldable pub show_int : ℤ → Text
unfolding show_nat
show_int (pos n) = show_nat n
show_int (negsuc n) = b'-' ∷ show_nat (suc n)
