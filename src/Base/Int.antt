-- ===== src/Base/Int.antt =====
-- Signed integers (page numbers, file descriptors and slot numbers, with -1 for "none"): the
-- tests that the source makes on them.
use Prim.Native.Nat.{ℕ}
use mathlib.Core.Path.{◌≡◌}
use mathlib.Core.Bool.{Bool, true, false}
use mathlib.Core.Logic.{◌↔◌}
use native.Mathlib.Omega.{arith}
use cscc_db.Base.Tests.{◌==◌, ltb}

-- `negsuc n` is -(n + 1).
pub data ℤ : Type 0 where
  pos : ℕ → ℤ
  negsuc : ℕ → ℤ

abbrev pub minus_one : ℤ
minus_one = negsuc 0

infix 50 ◌==ℤ◌
unfoldable pub ◌==ℤ◌ : ℤ → ℤ → Bool
pos a ==ℤ pos b = a == b
pos a ==ℤ negsuc b = false
negsuc a ==ℤ pos b = false
negsuc a ==ℤ negsuc b = a == b

unfoldable pub ltb_ℤ : ℤ → ℤ → Bool
ltb_ℤ (pos a) (pos b) = ltb a b
ltb_ℤ (pos a) (negsuc b) = false
ltb_ℤ (negsuc a) (pos b) = true
ltb_ℤ (negsuc a) (negsuc b) = ltb b a

pub ==ℤ_iff : (a b : ℤ) → ((a ==ℤ b) ≡ true) ↔ (a ≡ b)
unfolding ◌==ℤ◌
==ℤ_iff (pos a) (pos b) = ground arith
==ℤ_iff (pos a) (negsuc b) = ground arith
==ℤ_iff (negsuc a) (pos b) = ground arith
==ℤ_iff (negsuc a) (negsuc b) = ground arith
