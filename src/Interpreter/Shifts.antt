-- ===== src/Interpreter/Shifts.antt =====
-- What the shift helpers of src/interpreter/interp.cc do on amounts that are masked or small.
use jit_research.Base.{
  ℕ, ◌*◌, ◌/◌, ◌^◌, ◌<◌, ◌≡◌, ◌+◌, ◌-◌, ◌∙◌, ap, sym, ltb, if◌then◌else◌, refl, bit_and,
}
use jit_research.Isa.Word.{to_word, word_mod, sar}
use jit_research.Isa.Word.Amounts.{slice-mask, slice-small, mask-lt}
use jit_research.Isa.Word.Fill.{sar-fill}
use jit_research.Interpreter.Handlers.{sll_helper, srl_helper, sra_helper}

pub sll_helper-mask : (x y : ℕ) → sll_helper x y ≡ to_word (x * 2 ^ bit_and y 31)
unfolding sll_helper
sll_helper-mask x y = rw (slice-mask y) refl

pub srl_helper-mask : (x y : ℕ) → srl_helper x y ≡ x / 2 ^ bit_and y 31
unfolding srl_helper
srl_helper-mask x y = rw (slice-mask y) refl

pub sra_helper-mask : (x y : ℕ) → sra_helper x y ≡ sar x (bit_and y 31)
unfolding sra_helper
sra_helper-mask x y = rw (slice-mask y) refl

pub sll_helper-small : (x y : ℕ) → y < 32 → sll_helper x y ≡ to_word (x * 2 ^ y)
unfolding sll_helper
sll_helper-small x y h = rw (slice-small y h) refl

pub srl_helper-small : (x y : ℕ) → y < 32 → srl_helper x y ≡ x / 2 ^ y
unfolding srl_helper
srl_helper-small x y h = rw (slice-small y h) refl

pub sra_helper-small : (x y : ℕ) → y < 32 → sra_helper x y ≡ sar x y
unfolding sra_helper
sra_helper-small x y h = rw (slice-small y h) refl

-- The arithmetic shift of a word to the right is the logical one, with the sign bit in the places that
-- the masked amount makes free on the left.
pub sra_helper-srl_helper :
    (x y : ℕ)
    → x < word_mod
    → sra_helper x y
      ≡ srl_helper x y + (if ltb x (2 ^ 31) then 0 else word_mod - 2 ^ (32 - bit_and y 31))
sra_helper-srl_helper x y h =
    sra_helper-mask x y
    ∙ sar-fill x (bit_and y 31) h (mask-lt y)
    ∙ ap (λ t. t + (if ltb x (2 ^ 31) then 0 else word_mod - 2 ^ (32 - bit_and y 31)))
        (sym (srl_helper-mask x y))
