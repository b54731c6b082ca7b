-- ===== src/Base/Int.antt =====
-- Signed integers: `negsuc n` is -(n + 1). Go's `int64` values, where the code compares them.
use Prim.Native.Nat.{ℕ}
use mathlib.Core.Bool.{Bool, true, false}
use bdsmail.Base.Tests.{ltb}

pub data ℤ : Type 0 where
  pos : ℕ → ℤ
  negsuc : ℕ → ℤ

abbrev pub lt_ℤ : ℤ → ℤ → Bool
lt_ℤ (pos a) (pos b) = ltb a b
lt_ℤ (pos a) (negsuc b) = false
lt_ℤ (negsuc a) (pos b) = true
lt_ℤ (negsuc a) (negsuc b) = ltb b a
