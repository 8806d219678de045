-- ===== src/Isa/Decode/Keys.antt =====
-- The masked words on which the decoder switches.
use jit_research.Base.{
  ℕ, ◌+◌, ◌*◌, ◌/◌, ◌%◌, ◌^◌, ◌≡◌, ◌≢◌, arith, bit_and, none, List, [], ◌∷◌, ==_ne, refl, sym, ap,
}
use jit_research.Base.Bits.{bit_and-ones, bit_and_split}
use jit_research.Isa.Decode.{Case, switch}

pub opcode_key : (value : ℕ) → bit_and value 0x7f ≡ value % 2 ^ 7
opcode_key value = bit_and-ones 7 value

pub whole_key : (value : ℕ) → bit_and value 0xffffffff ≡ value % 2 ^ 32
whole_key value = bit_and-ones 32 value

pub funct3_key :
    (value : ℕ) → bit_and value 0x707f ≡ value / 2 ^ 12 % 2 ^ 3 * 2 ^ 12 + value % 2 ^ 7
funct3_key value = ground (
  arith,
  bit_and_split 12 (value / 2 ^ 12) 7 (value % 2 ^ 12) 0x7f,
  bit_and-ones 3 (value / 2 ^ 12),
  bit_and-ones 7 (value % 2 ^ 12),
)

pub funct7_key :
    (value : ℕ)
    → bit_and value 0xfe00707f
      ≡ value / 2 ^ 25 % 2 ^ 7 * 2 ^ 25 + value / 2 ^ 12 % 2 ^ 3 * 2 ^ 12 + value % 2 ^ 7
funct7_key value = ground (
  arith,
  bit_and_split 25 (value / 2 ^ 25) 0x7f (value % 2 ^ 25) 0x707f,
  bit_and-ones 7 (value / 2 ^ 25),
  funct3_key (value % 2 ^ 25),
)

-- No case of the list has the opcode field `field`.
abbrev pub Misses : ℕ → List Case → Type 0
Misses field [] = Unit
Misses field (c ∷ cs) = (c.label % 2 ^ 7 ≢ field) × Misses field cs

pub switch-Misses :
    (key value : ℕ) (cs : List Case) → Misses (key % 2 ^ 7) cs → switch key value cs ≡ none
unfolding switch
switch-Misses key value [] h = refl
switch-Misses key value (c ∷ cs) h =
    rw (==_ne key c.label (λ e. h.0 (sym (ap (λ (n : ℕ). n % 2 ^ 7) e))))
      (switch-Misses key value cs h.1)
