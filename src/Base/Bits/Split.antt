-- ===== src/Base/Bits/Split.antt =====
-- `&`, `|` and `^` work on the bits above and below a position separately.
use Prim.Native.Nat.{
  ℕ, zero, suc, ◌+◌, ◌*◌, ◌/◌, ◌%◌, ◌^◌, ◌<◌, bit_and, bit_or, bit_xor, differ, min, max,
}
use mathlib.Core.Path.{◌≡◌, refl, ap}
use native.Mathlib.Nat.{pow-suc}
use native.Mathlib.Omega.{arith}
use jit_research.Base.Bits.Digits.{bit_and_step, bit_or_step, bit_xor_step}

double : (q k : ℕ) → q * 2 ^ suc k ≡ 2 * (q * 2 ^ k)
double q k = omega (arith, ap (λ (t : ℕ). q * t) (pow-suc 2 k))

-- An operation that has such a law for the lowest digit splits at every position.
module _ (op digit : ℕ → ℕ → ℕ)
    (step : (a b : ℕ) → op a b ≡ op (a / 2) (b / 2) * 2 + digit (a % 2) (b % 2))
    (at_zero : op 0 0 ≡ 0) where
  split :
      (k x y r s : ℕ)
      → r < 2 ^ k
      → s < 2 ^ k
      → op (x * 2 ^ k + r) (y * 2 ^ k + s) ≡ op x y * 2 ^ k + op r s
  split zero x y r s hr hs = ground (arith, at_zero)
  split (suc k) x y r s hr hs = ground (
    arith,
    step (x * 2 ^ suc k + r) (y * 2 ^ suc k + s),
    step r s,
    double x k,
    double y k,
    double (op x y) k,
    pow-suc 2 k,
    split k x y (r / 2) (s / 2) (omega (arith, pow-suc 2 k)) (omega (arith, pow-suc 2 k)),
  )

pub bit_and_split :
    (k x y r s : ℕ)
    → r < 2 ^ k
    → s < 2 ^ k
    → bit_and (x * 2 ^ k + r) (y * 2 ^ k + s) ≡ bit_and x y * 2 ^ k + bit_and r s
bit_and_split = split bit_and min bit_and_step refl

pub bit_or_split :
    (k x y r s : ℕ)
    → r < 2 ^ k
    → s < 2 ^ k
    → bit_or (x * 2 ^ k + r) (y * 2 ^ k + s) ≡ bit_or x y * 2 ^ k + bit_or r s
bit_or_split = split bit_or max bit_or_step refl

pub bit_xor_split :
    (k x y r s : ℕ)
    → r < 2 ^ k
    → s < 2 ^ k
    → bit_xor (x * 2 ^ k + r) (y * 2 ^ k + s) ≡ bit_xor x y * 2 ^ k + bit_xor r s
bit_xor_split = split bit_xor differ bit_xor_step refl
