-- ===== src/Base/Rounding.antt =====
-- Floats of the sources between 0 and a small bound, as quotients of natural numbers, and what Python's
-- `round(x, 3)` promises of the thousandths that it gives.
use Prim.Native.Nat.{ℕ, ◌+◌, ◌*◌, ◌≤◌, ◌<◌}
use native.Mathlib.Omega.{arith}
use personal_intelligence.Base.Tests.{leb, if◌then◌else◌}

pub record Ratio : Type 0 where
  pub num : ℕ
  pub den : ℕ

unfoldable pub add_ratio : Ratio → Ratio → Ratio
add_ratio p q = record { num = p.num * q.den + q.num * p.den; den = p.den * q.den }

-- `min(1.0, x)`
unfoldable pub at_most_one : Ratio → Ratio
at_most_one q = if leb q.den q.num then record { num = 1; den = 1 } else q

-- The thousandths of a quotient are between those that it is between.
pub record IsRounding (round3 : ℕ → ℕ → ℕ) : Type 0 where
  pub at_most : (n d k : ℕ) → 1000 * n ≤ k * d → 0 < d → round3 n d ≤ k
  pub at_least : (n d k : ℕ) → k * d ≤ 1000 * n → 0 < d → k ≤ round3 n d

pub at_most_one-le : (q : Ratio) → (at_most_one q).num ≤ (at_most_one q).den
unfolding at_most_one
at_most_one-le q = ground arith

pub at_most_one-pos : (q : Ratio) → 0 < q.den → 0 < (at_most_one q).den
unfolding at_most_one
at_most_one-pos q h = ground arith
