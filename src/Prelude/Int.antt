-- ===== src/Prelude/Int.antt =====
-- Go's `int` for ports: a port may be negative in a request or in a file, so it is an integer.
-- No operation of the program adds or multiplies ports.
use Prim.Native.Nat.{ℕ}
use mathlib.Core.Bool.{Bool, true, false}
use mini_deploy.Prelude.Tests.{leb, eqb}

-- `negsuc n` is -(n + 1).
pub data ℤ : Type 0 where
  pos : ℕ → ℤ
  negsuc : ℕ → ℤ

-- port == 0
abbrev pub is_zero : ℤ → Bool
is_zero (pos n) = eqb n 0
is_zero (negsuc n) = false

-- lo <= port, for a bound that is not negative
abbrev pub at_least : ℕ → ℤ → Bool
at_least lo (pos n) = leb lo n
at_least lo (negsuc n) = false

-- port <= hi, for a bound that is not negative
abbrev pub at_most : ℕ → ℤ → Bool
at_most hi (pos n) = leb n hi
at_most hi (negsuc n) = true
