-- ===== src/Isa/Decode/Fields.antt =====
-- What the fields of the decoder are, as quotients and remainders of the word.
use jit_research.Base.{ℕ, ◌+◌, ◌-◌, ◌*◌, ◌/◌, ◌%◌, ◌^◌, ◌<◌, ◌≡◌, arith, bit_or, one-le-pow}
use jit_research.Base.Bits.{bit_or-zero, zero-bit_or, bit_or_fields, bit_or_split}
use jit_research.Isa.Word.{sar, to_word, word_mod}
use jit_research.Isa.Word.Slices.{slice_lem}
use jit_research.Isa.Decode.{
  piece, rd_field, rs1_field, rs2_field, i_imm, s_imm, b_imm, u_imm, j_imm, shift_imm,
}

sar-zero : (x : ℕ) → x < 2 ^ 32 → sar x 0 ≡ x
unfolding sar
sar-zero x h = ground arith

-- A piece that is not shifted back.
pub piece_low :
    (msb lsb left value : ℕ)
    → (2 ^ (msb - lsb + 1) - 1) * 2 ^ lsb < 2 ^ 32
    → piece msb lsb left 0 value ≡ to_word (value / 2 ^ lsb % 2 ^ (msb - lsb + 1) * 2 ^ left)
unfolding piece
piece_low msb lsb left value h = rw (slice_lem 32 msb lsb value h) (sar-zero _ (omega arith))

pub rd_field_lem : (value : ℕ) → rd_field value ≡ value / 2 ^ 7 % 32
unfolding rd_field
rd_field_lem value = omega (arith, piece_low 11 7 0 value (omega arith))

pub rs1_field_lem : (value : ℕ) → rs1_field value ≡ value / 2 ^ 15 % 32
unfolding rs1_field
rs1_field_lem value = omega (arith, piece_low 19 15 0 value (omega arith))

pub rs2_field_lem : (value : ℕ) → rs2_field value ≡ value / 2 ^ 20 % 32
unfolding rs2_field
rs2_field_lem value = omega (arith, piece_low 24 20 0 value (omega arith))

pub shift_imm_lem : (value : ℕ) → shift_imm value ≡ value / 2 ^ 20 % 32
unfolding shift_imm
shift_imm_lem value = omega (arith, piece_low 24 20 0 value (omega arith))

-- The sign bit, shifted back over the bits that it extends.
piece_sign :
    (value right : ℕ)
    → piece 31 31 31 right value ≡ value / 2 ^ 31 % 2 * (word_mod - 1 - (2 ^ 31 - 1) / 2 ^ right)
unfolding piece sar
piece_sign value right =
    rw (slice_lem 32 31 31 value (omega arith)) (ground (arith, one-le-pow right 2 (omega arith)))

-- A field put between two others, from bit `k` on, in `j` bits that are still 0.
bit_or_between :
    (j k q m r : ℕ)
    → m < 2 ^ j
    → r < 2 ^ k
    → bit_or (q * 2 ^ j * 2 ^ k + r) (m * 2 ^ k) ≡ (q * 2 ^ j + m) * 2 ^ k + r
bit_or_between j k q m r hm hr = ground (
  arith,
  one-le-pow k 2 (omega arith),
  bit_or_split k (q * 2 ^ j) m r 0,
  bit_or_fields j q m,
  bit_or-zero r,
)

pub i_imm_lem :
    (value : ℕ) → i_imm value ≡ value / 2 ^ 31 % 2 * (2 ^ 32 - 2 ^ 11) + value / 2 ^ 20 % 2 ^ 11
unfolding i_imm
i_imm_lem value = ground (
  arith,
  piece_sign value 20,
  piece_low 30 20 0 value,
  zero-bit_or (piece 31 31 31 20 value),
  bit_or_fields 11 (value / 2 ^ 31 % 2 * (2 ^ 21 - 1)) (value / 2 ^ 20 % 2 ^ 11),
)

pub s_imm_lem :
    (value : ℕ)
    → s_imm value
      ≡ value / 2 ^ 31 % 2 * (2 ^ 32 - 2 ^ 11)
        + value / 2 ^ 25 % 2 ^ 6 * 2 ^ 5
        + value / 2 ^ 7 % 2 ^ 5
unfolding s_imm
s_imm_lem value = ground (
  arith,
  piece_sign value 20,
  piece_low 30 25 5 value,
  piece_low 11 7 0 value,
  zero-bit_or (piece 31 31 31 20 value),
  bit_or_fields 11 (value / 2 ^ 31 % 2 * (2 ^ 21 - 1)) (value / 2 ^ 25 % 2 ^ 6 * 2 ^ 5),
  bit_or_fields 5 (value / 2 ^ 31 % 2 * (2 ^ 21 - 1) * 2 ^ 6 + value / 2 ^ 25 % 2 ^ 6)
      (value / 2 ^ 7 % 2 ^ 5),
)

pub u_imm_lem : (value : ℕ) → u_imm value ≡ value / 2 ^ 12 % 2 ^ 20 * 2 ^ 12
unfolding u_imm
u_imm_lem value = ground (arith, piece_low 31 12 12 value, zero-bit_or (piece 31 12 12 0 value))

pub b_imm_lem :
    (value : ℕ)
    → b_imm value
      ≡ value / 2 ^ 31 % 2 * (2 ^ 32 - 2 ^ 12)
        + value / 2 ^ 7 % 2 * 2 ^ 11
        + value / 2 ^ 25 % 2 ^ 6 * 2 ^ 5
        + value / 2 ^ 8 % 2 ^ 4 * 2
unfolding b_imm
b_imm_lem value = ground (
  arith,
  piece_sign value 19,
  piece_low 30 25 5 value,
  piece_low 11 8 1 value,
  piece_low 7 7 11 value,
  zero-bit_or (piece 31 31 31 19 value),
  bit_or_fields 12 (value / 2 ^ 31 % 2 * (2 ^ 20 - 1)) (value / 2 ^ 25 % 2 ^ 6 * 2 ^ 5),
  bit_or_fields 5 (value / 2 ^ 31 % 2 * (2 ^ 20 - 1) * 2 ^ 7 + value / 2 ^ 25 % 2 ^ 6)
      (value / 2 ^ 8 % 2 ^ 4 * 2),
  bit_or_between 1 11 (value / 2 ^ 31 % 2 * (2 ^ 20 - 1)) (value / 2 ^ 7 % 2)
      (value / 2 ^ 25 % 2 ^ 6 * 2 ^ 5 + value / 2 ^ 8 % 2 ^ 4 * 2),
)

pub j_imm_lem :
    (value : ℕ)
    → j_imm value
      ≡ value / 2 ^ 31 % 2 * (2 ^ 32 - 2 ^ 20)
        + value / 2 ^ 12 % 2 ^ 8 * 2 ^ 12
        + value / 2 ^ 20 % 2 * 2 ^ 11
        + value / 2 ^ 21 % 2 ^ 10 * 2
unfolding j_imm
j_imm_lem value = ground (
  arith,
  piece_sign value 11,
  piece_low 30 21 1 value,
  piece_low 20 20 11 value,
  piece_low 19 12 12 value,
  zero-bit_or (piece 31 31 31 11 value),
  bit_or_fields 20 (value / 2 ^ 31 % 2 * (2 ^ 12 - 1)) (value / 2 ^ 21 % 2 ^ 10 * 2),
  bit_or_between 9 11 (value / 2 ^ 31 % 2 * (2 ^ 12 - 1)) (value / 2 ^ 20 % 2)
      (value / 2 ^ 21 % 2 ^ 10 * 2),
  bit_or_between 8 12 (value / 2 ^ 31 % 2 * (2 ^ 12 - 1)) (value / 2 ^ 12 % 2 ^ 8)
      (value / 2 ^ 20 % 2 * 2 ^ 11 + value / 2 ^ 21 % 2 ^ 10 * 2),
)
