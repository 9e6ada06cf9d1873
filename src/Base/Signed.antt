-- ===== src/Base/Signed.antt =====
-- Signed amounts: a `Decimal` with two places, counted in its smallest unit.
use Prim.Native.Nat.{ℕ}
use mathlib.Core.Bool.{Bool, true, false}
use travel_latest.Base.Tests.{◌==◌}

-- `negsuc n` is -(n + 1).
pub data ℤ : Type 0 where
  pos : ℕ → ℤ
  negsuc : ℕ → ℤ

-- `a <= 0`
abbrev pub is_nonpositive : ℤ → Bool
is_nonpositive (pos n) = n == 0
is_nonpositive (negsuc n) = true

-- `a == b` for an amount that a table holds and one that a provider reports
abbrev pub eq_amount : ℕ → ℤ → Bool
eq_amount a (pos n) = a == n
eq_amount a (negsuc n) = false
