-- ===== src/Base/Bits/Masks.antt =====
-- Masks and disjoint fields as arithmetic.
use Prim.Native.Nat.{
  ℕ, zero, suc, ◌+◌, ◌-◌, ◌*◌, ◌/◌, ◌%◌, ◌^◌, ◌<◌, bit_and, bit_or, bit_xor, differ,
  bit_and-bitwise, bit_or-bitwise,
}
use mathlib.Core.Path.{◌≡◌, refl}
use mathlib.Core.WellFounded
use native.Mathlib.Nat.{pow-suc, one-le-pow}
use native.Mathlib.Omega.{arith}
use jit_research.Base.Order.{lt_wf}
use jit_research.Base.Bits.Digits.{bit_and_step, bit_or_step, bit_xor_step}
use jit_research.Base.Bits.Split.{bit_and_split, bit_or_split}

pub bit_and-zero : (a : ℕ) → bit_and a 0 ≡ 0
bit_and-zero a = WellFounded.induction lt_wf {C = λ n. bit_and n 0 ≡ 0} a λ n ih. at n ih
  where
    at : (n : ℕ) → ((m : ℕ) → m < n → bit_and m 0 ≡ 0) → bit_and n 0 ≡ 0
    at zero ih = refl
    at (suc n) ih = omega (arith, bit_and_step (suc n) 0, ih (suc n / 2) (omega arith))

pub bit_or-zero : (a : ℕ) → bit_or a 0 ≡ a
bit_or-zero a = WellFounded.induction lt_wf {C = λ n. bit_or n 0 ≡ n} a λ n ih. at n ih
  where
    at : (n : ℕ) → ((m : ℕ) → m < n → bit_or m 0 ≡ m) → bit_or n 0 ≡ n
    at zero ih = refl
    at (suc n) ih = omega (arith, bit_or_step (suc n) 0, ih (suc n / 2) (omega arith))

pub zero-bit_and : (b : ℕ) → bit_and 0 b ≡ 0
zero-bit_and b = bit_and-bitwise 0 b

pub zero-bit_or : (b : ℕ) → bit_or 0 b ≡ b
zero-bit_or b = bit_or-bitwise 0 b

-- A field above bit `k` joined with one below it.
pub bit_or_fields : (k q r : ℕ) → r < 2 ^ k → bit_or (q * 2 ^ k) r ≡ q * 2 ^ k + r
bit_or_fields k q r fits = ground (
  arith,
  bit_or_split k q 0 0 r (one-le-pow k 2 (omega arith)) fits,
  bit_or-zero q,
  zero-bit_or r,
)

ones_low : (k r : ℕ) → r < 2 ^ k → bit_and r (2 ^ k - 1) ≡ r
ones_low zero r h = ground arith
ones_low (suc k) r h = ground (
  arith,
  bit_and_step r (2 ^ suc k - 1),
  pow-suc 2 k,
  one-le-pow k 2 (omega arith),
  ones_low k (r / 2),
)

-- A mask of `k` ones keeps the remainder by `2 ^ k`.
pub bit_and-ones : (k a : ℕ) → bit_and a (2 ^ k - 1) ≡ a % 2 ^ k
bit_and-ones k a = ground (
  arith,
  one-le-pow k 2 (omega arith),
  bit_and_split k (a / 2 ^ k) 0 (a % 2 ^ k) (2 ^ k - 1),
  ones_low k (a % 2 ^ k),
  bit_and-zero (a / 2 ^ k),
)

-- A mask of `k` ones above `l` zeros keeps the bits from `l` on.
pub bit_and-shifted_ones : (k l a : ℕ) → bit_and a ((2 ^ k - 1) * 2 ^ l) ≡ a / 2 ^ l % 2 ^ k * 2 ^ l
bit_and-shifted_ones k l a = ground (
  arith,
  one-le-pow l 2 (omega arith),
  bit_and_split l (a / 2 ^ l) (2 ^ k - 1) (a % 2 ^ l) 0,
  bit_and-ones k (a / 2 ^ l),
  bit_and-zero (a % 2 ^ l),
)

pub bit_xor-zero : (a : ℕ) → bit_xor a 0 ≡ a
bit_xor-zero a = WellFounded.induction lt_wf {C = λ n. bit_xor n 0 ≡ n} a λ n ih. at n ih
  where
    lowest : (b : ℕ) → b < 2 → differ b 0 ≡ b
    lowest zero h = refl
    lowest (suc b) h = refl

    at : (n : ℕ) → ((m : ℕ) → m < n → bit_xor m 0 ≡ m) → bit_xor n 0 ≡ n
    at zero ih = refl
    at (suc n) ih = omega (
      arith,
      bit_xor_step (suc n) 0,
      ih (suc n / 2) (omega arith),
      lowest (suc n % 2) (omega arith),
    )
