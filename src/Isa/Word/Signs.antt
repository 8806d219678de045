-- ===== src/Isa/Word/Signs.antt =====
-- Two's complement: what the signed comparison, the arithmetic shift and the sign extension mean.
use jit_research.Base.{
  ℕ, zero, suc, ◌+◌, ◌-◌, ◌*◌, ◌/◌, ◌%◌, ◌^◌, ◌≤◌, ◌<◌, ◌≡◌, ◌↔◌, refl, arith, bit_xor, one-le-pow,
  true, ltb, if◌then◌else◌,
}
use jit_research.Base.Bits.{bit_xor_split, bit_xor-zero}
use jit_research.Base.Int.{ℤ, pos, negsuc, ◌<ℤ◌, ltb_ℤ}
use jit_research.Isa.Word.{word_mod, signed, signed_less, sar, sign_extend, slice}
use jit_research.Isa.Word.Slices.{slice_lem}

ltb_ℤ_iff : (a b : ℤ) → (ltb_ℤ a b ≡ true) ↔ (a <ℤ b)
ltb_ℤ_iff (pos a) (pos b) = ground arith
ltb_ℤ_iff (pos a) (negsuc b) = (λ e. cc, λ h. absurd h)
ltb_ℤ_iff (negsuc a) (pos b) = (λ e. tt, λ h. refl)
ltb_ℤ_iff (negsuc a) (negsuc b) = ground arith

-- The signed comparison of two words is the order of the integers for which they stand, and it is
-- the unsigned comparison of the words with their top bits flipped.
pub signed_less_lem :
    (a b : ℕ)
    → a < word_mod
    → b < word_mod
    → ((signed_less a b ≡ true) ↔ (signed a <ℤ signed b))
      × (signed_less a b ≡ ltb ((a + 2 ^ 31) % word_mod) ((b + 2 ^ 31) % word_mod))
unfolding signed_less
signed_less_lem a b ha hb = (ltb_ℤ_iff (signed a) (signed b), ground arith)

pub div-le : (x d : ℕ) → x / d ≤ x
div-le x d = omega arith

pub sar-lt : (x k : ℕ) → sar x k < word_mod
unfolding sar
sar-lt x k = ground arith

pub flip_top :
    (k t r : ℕ) → t < 2 → r < 2 ^ k → bit_xor (t * 2 ^ k + r) (2 ^ k) ≡ (1 - t) * 2 ^ k + r
flip_top k zero r ht hr = ground (arith, bit_xor_split k 0 1 r 0, one-le-pow k 2, bit_xor-zero r)
flip_top k (suc zero) r ht hr =
    ground (arith, bit_xor_split k 1 1 r 0, one-le-pow k 2, bit_xor-zero r)
flip_top k (suc (suc t)) r ht hr = absurd (omega arith)

whole_slice : (x : ℕ) → slice 32 31 0 x ≡ x % 2 ^ 32
whole_slice x = omega (arith, slice_lem 32 31 0 x (omega arith))

-- The sign extension of a byte to a word leaves a byte below 2 ^ 7 as it is and sets the upper 24
-- bits of another.
pub sign_extend_byte :
    (val : ℕ)
    → val < 2 ^ 8
    → sign_extend 32 32 8 val ≡ (if ltb val (2 ^ 7) then val else val + 2 ^ 32 - 2 ^ 8)
unfolding sign_extend
sign_extend_byte val h =
    rw (slice_lem 32 7 0 val (omega arith), whole_slice)
      (ground (arith, flip_top 7 (val / 2 ^ 7) (val % 2 ^ 7)))

pub sign_extend_half :
    (val : ℕ)
    → val < 2 ^ 16
    → sign_extend 32 32 16 val ≡ (if ltb val (2 ^ 15) then val else val + 2 ^ 32 - 2 ^ 16)
unfolding sign_extend
sign_extend_half val h =
    rw (slice_lem 32 15 0 val (omega arith), whole_slice)
      (ground (arith, flip_top 15 (val / 2 ^ 15) (val % 2 ^ 15)))

pub sign_extend-lt : (old_size val : ℕ) → val < word_mod → sign_extend 32 32 old_size val < word_mod
unfolding sign_extend
sign_extend-lt old_size val h = ground (
  arith,
  whole_slice (
      (bit_xor (slice 32 (old_size - 1) 0 val) (2 ^ (old_size - 1) % 2 ^ 32)
        + 2 ^ 32
        - 2 ^ (old_size - 1) % 2 ^ 32)
      % 2 ^ 32),
)
