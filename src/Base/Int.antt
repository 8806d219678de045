-- ===== src/Base/Int.antt =====
-- Integers over the native numbers, as far as `int32_t` needs them.
use Prim.Native.Nat.{ℕ, ◌/◌, ◌^◌, ◌<◌}
use mathlib.Core.Bool.{Bool, true, false}
use jit_research.Base.Tests.{ltb}

-- `negsuc n` is -(n + 1).
pub data ℤ : Type 0 where
  pos : ℕ → ℤ
  negsuc : ℕ → ℤ

-- `<` as a test and as a relation.
abbrev pub ltb_ℤ : ℤ → ℤ → Bool
ltb_ℤ (pos a) (pos b) = ltb a b
ltb_ℤ (pos a) (negsuc b) = false
ltb_ℤ (negsuc a) (pos b) = true
ltb_ℤ (negsuc a) (negsuc b) = ltb b a

infix 50 ◌<ℤ◌
abbrev pub ◌<ℤ◌ : ℤ → ℤ → Type 0
pos a <ℤ pos b = a < b
pos a <ℤ negsuc b = ⊥
negsuc a <ℤ pos b = Unit
negsuc a <ℤ negsuc b = b < a

-- The quotient by `2 ^ k`, rounded down, as C++20 has it for `>>`:
-- -(n + 1) divided by d, rounded down, is -(n / d + 1).
abbrev pub shr_ℤ : ℤ → ℕ → ℤ
shr_ℤ (pos n) k = pos (n / 2 ^ k)
shr_ℤ (negsuc n) k = negsuc (n / 2 ^ k)
