-- ===== src/Isa/Word/Amounts.antt =====
-- Shift amounts and even targets, as translated code computes them.
use jit_research.Base.{ℕ, ◌*◌, ◌/◌, ◌%◌, ◌^◌, ◌<◌, ◌≡◌, arith, bit_and}
use jit_research.Base.Bits.{bit_and-shifted_ones, bit_and-ones}
use jit_research.Isa.Word.{to_word, word_mod, slice}
use jit_research.Isa.Word.Slices.{slice_lem}

-- The shift amount that the interpreter takes from an operand is what the operand masked by 31 is.
pub slice-mask : (y : ℕ) → slice 32 4 0 y ≡ bit_and y 31
slice-mask y = rw (slice_lem 32 4 0 y (omega arith), bit_and-ones 5 y) (omega arith)

pub slice-small : (y : ℕ) → y < 32 → slice 32 4 0 y ≡ y
slice-small y h = rw (slice_lem 32 4 0 y (omega arith)) (omega arith)

-- A mask that clears the lowest bit of a word.
pub even_mask : (x : ℕ) → bit_and (x % word_mod) 0xfffffffe ≡ to_word (x % word_mod / 2 * 2)
even_mask x = rw (bit_and-shifted_ones 31 1 (x % word_mod)) (omega arith)

pub mask-lt : (y : ℕ) → bit_and y 31 < 32
mask-lt y = rw (bit_and-ones 5 y) (omega arith)

-- The low byte of an amount has the amount's mask.
pub mask_byte : (y : ℕ) → bit_and (y % 2 ^ 8) 31 ≡ bit_and y 31
mask_byte y = rw (bit_and-ones 5 y, bit_and-ones 5 (y % 2 ^ 8)) (omega arith)
