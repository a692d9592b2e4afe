-- ===== src/Base/Ints.antt =====
-- Integers over the native natural numbers.
use Prim.Native.Nat.{ℕ}
use mathlib.Core.Bool.{Bool, true, false}
use dux.Base.Tests.{ltb}

pub data ℤ : Type 0 where
  pos : ℕ → ℤ
  -- negsuc n is - (n + 1)
  negsuc : ℕ → ℤ

-- x < n for a natural number n
unfoldable pub below : ℤ → ℕ → Bool
below (pos m) n = ltb m n
below (negsuc m) n = true

-- n < x for a natural number n
unfoldable pub above : ℤ → ℕ → Bool
above (pos m) n = ltb n m
above (negsuc m) n = false
