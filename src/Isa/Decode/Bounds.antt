-- ===== src/Isa/Decode/Bounds.antt =====
-- What holds of every decoded instruction.
pub mod Fence
pub mod Formats
pub use Formats.{IsDecodable, shifts_by_imm, IsWellFormed}
use jit_research.Base.{
  ℕ, ◌≡◌, Option, none, some, List, [], ◌∷◌, if◌then◌else◌, Bool, true, false, bit_and, ◌==◌,
}
use mathlib.Core.Path.{subst}
use jit_research.Isa.Decode.{
  Instruction, Case, switch, decode, funct3_cases, funct7_cases, opcode_cases, system_cases,
  or_else,
}
use Formats.{
  shift_type-IsWellFormed, r_type-IsWellFormed, i_type-IsWellFormed, s_type-IsWellFormed,
  b_type-IsWellFormed, u_type-IsWellFormed, j_type-IsWellFormed, fence_type-IsWellFormed,
  system_type-IsWellFormed,
}

ruleset well_formed = (
  r_type-IsWellFormed, i_type-IsWellFormed, shift_type-IsWellFormed, s_type-IsWellFormed,
  b_type-IsWellFormed, u_type-IsWellFormed, j_type-IsWellFormed, fence_type-IsWellFormed,
  system_type-IsWellFormed,
)

-- The bodies of all cases give well-formed instructions.
abbrev AllWellFormed : ℕ → List Case → Type 0
AllWellFormed w [] = Unit
AllWellFormed w (c ∷ cs) = IsWellFormed (c.format c.opcode w) × AllWellFormed w cs

-- What an optional result holds, if anything, is well-formed.
abbrev Yields : Option Instruction → Type 0
Yields none = Unit
Yields (some n) = IsWellFormed n

if-Yields :
    (b : Bool) (n : Instruction) (o : Option Instruction)
    → IsWellFormed n
    → Yields o
    → Yields (if b then some n else o)
if-Yields true n o h k = h
if-Yields false n o h k = k

switch-Yields : (key w : ℕ) (cs : List Case) → AllWellFormed w cs → Yields (switch key w cs)
unfolding switch
switch-Yields key w [] all = tt
switch-Yields key w (c ∷ cs) all =
    if-Yields (key == c.label) (c.format c.opcode w) (switch key w cs) all.0
      (switch-Yields key w cs all.1)

or_else-Yields :
    (first later : Option Instruction) → Yields first → Yields later → Yields (or_else first later)
or_else-Yields none later h k = k
or_else-Yields (some m) later h k = h

funct3-AllWellFormed : (w : ℕ) → AllWellFormed w funct3_cases
funct3-AllWellFormed w = search well_formed

funct7-AllWellFormed : (w : ℕ) → AllWellFormed w funct7_cases
funct7-AllWellFormed w = search well_formed

opcode-AllWellFormed : (w : ℕ) → AllWellFormed w opcode_cases
opcode-AllWellFormed w = search well_formed

system-AllWellFormed : (w : ℕ) → AllWellFormed w system_cases
system-AllWellFormed w = search well_formed

decode-Yields : (word : ℕ) → Yields (decode word)
unfolding decode
decode-Yields word =
    let by_funct3 = switch (bit_and word 0x707f) word funct3_cases in
    let by_funct7 = switch (bit_and word 0xfe00707f) word funct7_cases in
    let by_opcode = switch (bit_and word 0x7f) word opcode_cases in
    let whole = switch (bit_and word 0xffffffff) word system_cases in
    or_else-Yields by_funct3 (or_else by_funct7 (or_else by_opcode whole))
      (switch-Yields (bit_and word 0x707f) word funct3_cases (funct3-AllWellFormed word))
      (or_else-Yields by_funct7 (or_else by_opcode whole)
        (switch-Yields (bit_and word 0xfe00707f) word funct7_cases (funct7-AllWellFormed word))
        (or_else-Yields by_opcode whole
          (switch-Yields (bit_and word 0x7f) word opcode_cases (opcode-AllWellFormed word))
          (switch-Yields (bit_and word 0xffffffff) word system_cases (system-AllWellFormed word))))

-- What the decoder returns has register operands below 32, an immediate operand of 32 bits, an
-- immediate shift amount below 32 and a real opcode: never PAUSE, SBREAK, SCALL or the end marker.
pub decode-IsWellFormed : (word : ℕ) (n : Instruction) → decode word ≡ some n → IsWellFormed n
decode-IsWellFormed word n e = subst Yields e (decode-Yields word)
