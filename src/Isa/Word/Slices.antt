-- ===== src/Isa/Word/Slices.antt =====
-- `slice` as a quotient and a remainder.
use jit_research.Base.{ℕ, ◌+◌, ◌-◌, ◌*◌, ◌/◌, ◌%◌, ◌^◌, ◌<◌, ◌≡◌, arith, one-le-pow}
use native.Mathlib.Nat.{mod-eq_of_lt}
use jit_research.Base.Bits.{bit_and-shifted_ones}
use jit_research.Isa.Word.{ones, get_mask, slice}

ones_lem : (w num : ℕ) → ones w num ≡ 2 ^ num - 1
unfolding ones
ones_lem w num = ground arith

get_mask_lem :
    (w msb lsb : ℕ)
    → (2 ^ (msb - lsb + 1) - 1) * 2 ^ lsb < 2 ^ w
    → get_mask w msb lsb ≡ (2 ^ (msb - lsb + 1) - 1) * 2 ^ lsb
unfolding get_mask
get_mask_lem w msb lsb h = rw (ones_lem w (msb - lsb + 1)) (mod-eq_of_lt h)

mul-div_cancel : (x d : ℕ) → 0 < d → x * d / d ≡ x
mul-div_cancel x d h = grind arith

-- Where the field lies in the word, a slice is its bits.
pub slice_lem :
    (w msb lsb value : ℕ)
    → (2 ^ (msb - lsb + 1) - 1) * 2 ^ lsb < 2 ^ w
    → slice w msb lsb value ≡ value / 2 ^ lsb % 2 ^ (msb - lsb + 1)
unfolding slice
slice_lem w msb lsb value h =
    rw (get_mask_lem w msb lsb h, bit_and-shifted_ones (msb - lsb + 1) lsb value)
      (mul-div_cancel _ (2 ^ lsb) (one-le-pow lsb 2 (omega arith)))
