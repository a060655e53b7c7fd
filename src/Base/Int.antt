-- ===== src/Base/Int.antt =====
-- Python's `int`: the whole numbers over the native ℕ, and their order as a test.
use Prim.Native.Nat.{ℕ}
use mathlib.Core.Bool.{Bool, true, false}
use matterloop.Base.Tests.{ltb}

pub data ℤ : Type 0 where
  pos negsuc : ℕ → ℤ

unfoldable pub int_ltb : ℤ → ℤ → Bool
int_ltb (pos a) (pos b) = ltb a b
int_ltb (pos a) (negsuc b) = false
int_ltb (negsuc a) (pos b) = true
int_ltb (negsuc a) (negsuc b) = ltb b a
