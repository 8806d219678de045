-- ===== src/Isa/Decode.antt =====
-- `Instruction` of src/isa/include/prot/isa.hh and `Instruction::decode` of src/isa/isa.cc. The four
-- `switch` statements are four lists of cases, each on the masked word; the bodies that the cases
-- share are the functions `i_type` to `system_type`.
pub mod Fields
pub mod Keys
pub mod Bounds
pub mod Format
pub mod Assemble
pub mod Readback
pub mod RoundTrip
pub mod Fences
use jit_research.Base.{
  ℕ, ◌*◌, ◌%◌, ◌^◌, bit_and, bit_or, ◌==◌, if◌then◌else◌, Option, none, some, List, [], ◌∷◌, ◌++◌,
}
use jit_research.Isa.Word.{slice, sar, to_word}
use jit_research.Isa.Opcode
use jit_research.Isa.Opcode.{Opcode}

pub record Instruction : Type 0 where
  pub opcode : Opcode
  pub rs1 : ℕ
  pub rs2 : ℕ
  pub rd : ℕ
  pub imm : ℕ

-- `std::bit_cast<int32_t>(slice<msb, lsb>(word) << left) >> right`, the piece of which every field
-- is made
unfoldable pub piece : ℕ → ℕ → ℕ → ℕ → ℕ → ℕ
unfolding slice sar
piece msb lsb left right word = sar (to_word (slice 32 msb lsb word * 2 ^ left)) right

-- The conversion to the `uint8_t` of an operand.
abbrev pub to_operand : ℕ → ℕ
to_operand x = x % 2 ^ 8

-- The fields that several formats read in the same way.
unfoldable pub rd_field : ℕ → ℕ
unfolding piece
rd_field word = to_operand (piece 11 7 0 0 word)

unfoldable pub rs1_field : ℕ → ℕ
unfolding piece
rs1_field word = to_operand (piece 19 15 0 0 word)

unfoldable pub rs2_field : ℕ → ℕ
unfolding piece
rs2_field word = to_operand (piece 24 20 0 0 word)

-- The immediate operands, joined by `|=` in the order of the source, from 0.
unfoldable pub i_imm : ℕ → ℕ
unfolding piece
i_imm word = bit_or (bit_or 0 (piece 31 31 31 20 word)) (piece 30 20 0 0 word)

unfoldable pub s_imm : ℕ → ℕ
unfolding piece
s_imm word =
    bit_or (bit_or (bit_or 0 (piece 31 31 31 20 word)) (piece 30 25 5 0 word)) (piece 11 7 0 0 word)

unfoldable pub b_imm : ℕ → ℕ
unfolding piece
b_imm word =
    bit_or
      (bit_or (bit_or (bit_or 0 (piece 31 31 31 19 word)) (piece 30 25 5 0 word))
        (piece 11 8 1 0 word))
      (piece 7 7 11 0 word)

unfoldable pub u_imm : ℕ → ℕ
unfolding piece
u_imm word = bit_or 0 (piece 31 12 12 0 word)

unfoldable pub j_imm : ℕ → ℕ
unfolding piece
j_imm word =
    bit_or
      (bit_or (bit_or (bit_or 0 (piece 31 31 31 11 word)) (piece 30 21 1 0 word))
        (piece 20 20 11 0 word))
      (piece 19 12 12 0 word)

-- The three fields of a fence are joined at the same place, bits 0 to 3.
unfoldable pub fence_imm : ℕ → ℕ
unfolding piece
fence_imm word =
    bit_or (bit_or (bit_or 0 (piece 31 28 0 0 word)) (piece 27 24 0 0 word)) (piece 23 20 0 0 word)

unfoldable pub shift_imm : ℕ → ℕ
unfolding piece
shift_imm word = piece 24 20 0 0 word

-- The body of a case, by format: what it does not assign keeps its default, 0.
unfoldable pub r_type : Opcode → ℕ → Instruction
r_type opcode word = record {
  opcode = opcode;
  rs1 = rs1_field word;
  rs2 = rs2_field word;
  rd = rd_field word;
  imm = 0;
}

unfoldable pub i_type : Opcode → ℕ → Instruction
i_type opcode word = record {
  opcode = opcode;
  rs1 = rs1_field word;
  rs2 = 0;
  rd = rd_field word;
  imm = i_imm word;
}

unfoldable pub shift_type : Opcode → ℕ → Instruction
shift_type opcode word = record {
  opcode = opcode;
  rs1 = rs1_field word;
  rs2 = 0;
  rd = rd_field word;
  imm = shift_imm word;
}

unfoldable pub s_type : Opcode → ℕ → Instruction
s_type opcode word = record {
  opcode = opcode;
  rs1 = rs1_field word;
  rs2 = rs2_field word;
  rd = 0;
  imm = s_imm word;
}

unfoldable pub b_type : Opcode → ℕ → Instruction
b_type opcode word = record {
  opcode = opcode;
  rs1 = rs1_field word;
  rs2 = rs2_field word;
  rd = 0;
  imm = b_imm word;
}

unfoldable pub u_type : Opcode → ℕ → Instruction
u_type opcode word = record {
  opcode = opcode;
  rs1 = 0;
  rs2 = 0;
  rd = rd_field word;
  imm = u_imm word;
}

unfoldable pub j_type : Opcode → ℕ → Instruction
j_type opcode word = record {
  opcode = opcode;
  rs1 = 0;
  rs2 = 0;
  rd = rd_field word;
  imm = j_imm word;
}

unfoldable pub fence_type : Opcode → ℕ → Instruction
fence_type opcode word = record {
  opcode = opcode;
  rs1 = rs1_field word;
  rs2 = 0;
  rd = rd_field word;
  imm = fence_imm word;
}

unfoldable pub system_type : Opcode → ℕ → Instruction
system_type opcode word = record { opcode = opcode; rs1 = 0; rs2 = 0; rd = 0; imm = 0 }

-- A `switch` without a default: the body of the first case whose label is the masked word.
pub record Case : Type 0 where
  pub label : ℕ
  pub format : Opcode → ℕ → Instruction
  pub opcode : Opcode

abbrev pub case : ℕ → (Opcode → ℕ → Instruction) → Opcode → Case
case label format opcode = record { label = label; format = format; opcode = opcode }

unfoldable pub switch : ℕ → ℕ → List Case → Option Instruction
switch key word [] = none
switch key word (c ∷ cs) =
    if key == c.label then some (c.format c.opcode word) else switch key word cs

-- The next `switch` runs where the one before matched no case.
abbrev pub or_else : Option Instruction → Option Instruction → Option Instruction
or_else none later = later
or_else (some i) later = some i

abbrev pub load_cases : List Case
load_cases =
    case 0b11 i_type Opcode.lb
    ∷ case 0b1000000000011 i_type Opcode.lh
    ∷ case 0b10000000000011 i_type Opcode.lw
    ∷ case 0b100000000000011 i_type Opcode.lbu
    ∷ case 0b101000000000011 i_type Opcode.lhu
    ∷ []

abbrev pub imm_cases : List Case
imm_cases =
    case 0b1111 fence_type Opcode.fence
    ∷ case 0b10011 i_type Opcode.addi
    ∷ case 0b1000000010011 shift_type Opcode.slli
    ∷ case 0b10000000010011 i_type Opcode.slti
    ∷ case 0b11000000010011 i_type Opcode.sltiu
    ∷ case 0b100000000010011 i_type Opcode.xori
    ∷ case 0b110000000010011 i_type Opcode.ori
    ∷ case 0b111000000010011 i_type Opcode.andi
    ∷ []

abbrev pub store_cases : List Case
store_cases =
    case 0b100011 s_type Opcode.sb
    ∷ case 0b1000000100011 s_type Opcode.sh
    ∷ case 0b10000000100011 s_type Opcode.sw
    ∷ []

abbrev pub branch_cases : List Case
branch_cases =
    case 0b1100011 b_type Opcode.beq
    ∷ case 0b1000001100011 b_type Opcode.bne
    ∷ case 0b100000001100011 b_type Opcode.blt
    ∷ case 0b101000001100011 b_type Opcode.bge
    ∷ case 0b110000001100011 b_type Opcode.bltu
    ∷ case 0b111000001100011 b_type Opcode.bgeu
    ∷ []

-- The cases of the first `switch`.
abbrev pub funct3_cases : List Case
funct3_cases = load_cases ++ imm_cases ++ store_cases ++ branch_cases

abbrev pub funct7_cases : List Case
funct7_cases =
    case 0b101000000010011 shift_type Opcode.srli
    ∷ case 0b1000000000000000101000000010011 shift_type Opcode.srai
    ∷ case 0b110011 r_type Opcode.add
    ∷ case 0b1000000110011 r_type Opcode.sll
    ∷ case 0b10000000110011 r_type Opcode.slt
    ∷ case 0b11000000110011 r_type Opcode.sltu
    ∷ case 0b100000000110011 r_type Opcode.xor
    ∷ case 0b101000000110011 r_type Opcode.srl
    ∷ case 0b110000000110011 r_type Opcode.or
    ∷ case 0b111000000110011 r_type Opcode.and
    ∷ case 0b1000000000000000000000000110011 r_type Opcode.sub
    ∷ case 0b1000000000000000101000000110011 r_type Opcode.sra
    ∷ []

abbrev pub opcode_cases : List Case
opcode_cases =
    case 0b10111 u_type Opcode.auipc
    ∷ case 0b110111 u_type Opcode.lui
    ∷ case 0b1100111 i_type Opcode.jalr
    ∷ case 0b1101111 j_type Opcode.jal
    ∷ []

abbrev pub system_cases : List Case
system_cases =
    case 0b1110011 system_type Opcode.ecall
    ∷ case 0b100000000000001110011 system_type Opcode.ebreak
    ∷ []

-- `Instruction::decode(word)`
unfoldable pub decode : ℕ → Option Instruction
decode word =
    let by_funct3 = bit_and word 0b111000001111111 in
    let by_funct7 = bit_and word 0b11111110000000000111000001111111 in
    let by_opcode = bit_and word 0b1111111 in
    let whole = bit_and word 0b11111111111111111111111111111111 in
    or_else (switch by_funct3 word funct3_cases) (
      or_else (switch by_funct7 word funct7_cases)
        (or_else (switch by_opcode word opcode_cases) (switch whole word system_cases)))
