-- ===== src/Base/Int.antt =====
-- Go's `int` where it may be -1, with its tests.
use Prim.Native.Nat.{ℕ}
use mathlib.Core.Bool.{Bool, true, false}
use arupa.Base.Tests.{leb, ltb, nat_eqb}

-- `negsuc n` is -(n + 1).
pub data ℤ : Type 0 where
  pos : ℕ → ℤ
  negsuc : ℕ → ℤ

abbrev pub ltbℤ : ℤ → ℤ → Bool
ltbℤ (pos a) (pos b) = ltb a b
ltbℤ (pos a) (negsuc b) = false
ltbℤ (negsuc a) (pos b) = true
ltbℤ (negsuc a) (negsuc b) = ltb b a

abbrev pub lebℤ : ℤ → ℤ → Bool
lebℤ (pos a) (pos b) = leb a b
lebℤ (pos a) (negsuc b) = false
lebℤ (negsuc a) (pos b) = true
lebℤ (negsuc a) (negsuc b) = leb b a

abbrev pub eqbℤ : ℤ → ℤ → Bool
eqbℤ (pos a) (pos b) = nat_eqb a b
eqbℤ (negsuc a) (negsuc b) = nat_eqb a b
eqbℤ _ _ = false
