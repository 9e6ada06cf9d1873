-- ===== src/Base/Text.antt =====
-- Python's text operations that the code computes with, over the native `String`.
use Prim.Native.Nat.{ℕ, zero, suc, ◌≤◌}
use Prim.Native.String.{String}
use native.Mathlib.Omega.{arith}
use text.Mathlib.Text.{◌==◌}
use travel_latest.Base.Tests.{if◌then◌else◌}

-- `s[:n]`
abbrev pub first : ℕ → String → String
first zero s = ""
first (suc n) String.[] = ""
first (suc n) (String.◌∷◌ c s) = String.◌∷◌ c (first n s)

-- `len(s)`
abbrev pub length : String → ℕ
length String.[] = 0
length (String.◌∷◌ c s) = suc (length s)

-- `s or d`: an empty text is false.
abbrev pub or_default : String → String → String
or_default s d = if s == "" then d else s

pub length-first : (n : ℕ) (s : String) → length (first n s) ≤ n
length-first zero s = omega arith
length-first (suc n) String.[] = omega arith
length-first (suc n) (String.◌∷◌ c s) = omega (arith, length-first n s)
