-- ===== src/Base/Bits/Bounds.antt =====
-- `&`, `|` and `^` stay within the width of their operands.
use Prim.Native.Nat.{
  ℕ, zero, suc, ◌+◌, ◌*◌, ◌/◌, ◌%◌, ◌^◌, ◌<◌, bit_and, bit_or, bit_xor, min, max, differ,
}
use mathlib.Core.Path.{◌≡◌, refl}
use native.Mathlib.Nat.{pow-suc}
use native.Mathlib.Omega.{arith}
use jit_research.Base.Bits.Digits.{bit_and_step, bit_or_step, bit_xor_step}

module _ (op digit : ℕ → ℕ → ℕ)
    (step : (a b : ℕ) → op a b ≡ op (a / 2) (b / 2) * 2 + digit (a % 2) (b % 2))
    (at_zero : op 0 0 ≡ 0) (digit_lt : (a b : ℕ) → a < 2 → b < 2 → digit a b < 2) where
  within : (k a b : ℕ) → a < 2 ^ k → b < 2 ^ k → op a b < 2 ^ k
  within zero a b ha hb =
      let a0 : a ≡ 0 = omega arith in
      let b0 : b ≡ 0 = omega arith in rw (a0, b0) (omega (arith, at_zero))
  within (suc k) a b ha hb =
      let p = pow-suc 2 k in
      let half = within k (a / 2) (b / 2) (omega arith) (omega arith) in
      let low = digit_lt (a % 2) (b % 2) (omega arith) (omega arith) in rw (step a b) (omega arith)

differ-lt : (a b : ℕ) → a < 2 → b < 2 → differ a b < 2
differ-lt zero b ha hb = hb
differ-lt (suc zero) zero ha hb = omega arith
differ-lt (suc zero) (suc zero) ha hb = omega arith
differ-lt (suc zero) (suc (suc b)) ha hb = absurd (omega arith)
differ-lt (suc (suc a)) b ha hb = absurd (omega arith)

pub bit_and-lt : (k a b : ℕ) → a < 2 ^ k → b < 2 ^ k → bit_and a b < 2 ^ k
bit_and-lt = within bit_and min bit_and_step refl (λ a b p q. omega arith)

pub bit_or-lt : (k a b : ℕ) → a < 2 ^ k → b < 2 ^ k → bit_or a b < 2 ^ k
bit_or-lt = within bit_or max bit_or_step refl (λ a b p q. omega arith)

pub bit_xor-lt : (k a b : ℕ) → a < 2 ^ k → b < 2 ^ k → bit_xor a b < 2 ^ k
bit_xor-lt = within bit_xor differ bit_xor_step refl differ-lt
