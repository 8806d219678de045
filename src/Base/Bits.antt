-- ===== src/Base/Bits.antt =====
-- `&`, `|` and `^` at variables: the lowest digit, the split of both numbers at a bit position,
-- and what follows for masks and fields.
mod Digits
pub use Digits.{bit_and_step, bit_or_step, bit_xor_step}
mod Split
mod Masks
pub use Split.{bit_and_split, bit_or_split, bit_xor_split}
pub use Masks.{
  bit_and-zero, bit_or-zero, bit_xor-zero, zero-bit_or, bit_or_fields, bit_and-ones,
  bit_and-shifted_ones,
}
mod Bounds
pub use Bounds.{bit_and-lt, bit_or-lt, bit_xor-lt}
