-- ===== src/Isa/Decode/Format.antt =====
-- The RV32I encoding as the instruction set manual states it, which the program does not contain:
-- the formats, their fields as sums, and the format of each opcode. FENCE is left out: see Fences.
use jit_research.Base.{ℕ, ◌+◌, ◌*◌, ◌/◌, ◌%◌, ◌^◌, ◌<◌, ◌≤◌, ◌≡◌, ◌⊎◌}
use jit_research.Isa.Opcode.{Opcode}
use jit_research.Isa.Decode.{Instruction}

-- The constant fields: funct7, funct3 and the opcode field, or the whole immediate of a system call.
pub data Format : Type 0 where
  r shift : ℕ → ℕ → ℕ → Format
  i s b : ℕ → ℕ → Format
  u j : ℕ → Format
  system : ℕ → Format
  other : Format

abbrev pub format_of : Opcode → Format
format_of Opcode.add = Format.r 0 0 0x33
format_of Opcode.addi = Format.i 0 0x13
format_of Opcode.and = Format.r 0 7 0x33
format_of Opcode.andi = Format.i 7 0x13
format_of Opcode.auipc = Format.u 0x17
format_of Opcode.beq = Format.b 0 0x63
format_of Opcode.bge = Format.b 5 0x63
format_of Opcode.bgeu = Format.b 7 0x63
format_of Opcode.blt = Format.b 4 0x63
format_of Opcode.bltu = Format.b 6 0x63
format_of Opcode.bne = Format.b 1 0x63
format_of Opcode.ebreak = Format.system 1
format_of Opcode.ecall = Format.system 0
format_of Opcode.jal = Format.j 0x6f
format_of Opcode.jalr = Format.i 0 0x67
format_of Opcode.lb = Format.i 0 3
format_of Opcode.lbu = Format.i 4 3
format_of Opcode.lh = Format.i 1 3
format_of Opcode.lhu = Format.i 5 3
format_of Opcode.lui = Format.u 0x37
format_of Opcode.lw = Format.i 2 3
format_of Opcode.or = Format.r 0 6 0x33
format_of Opcode.ori = Format.i 6 0x13
format_of Opcode.sb = Format.s 0 0x23
format_of Opcode.sh = Format.s 1 0x23
format_of Opcode.sll = Format.r 0 1 0x33
format_of Opcode.slli = Format.shift 0 1 0x13
format_of Opcode.slt = Format.r 0 2 0x33
format_of Opcode.slti = Format.i 2 0x13
format_of Opcode.sltiu = Format.i 3 0x13
format_of Opcode.sltu = Format.r 0 3 0x33
format_of Opcode.sra = Format.r 0x20 5 0x33
format_of Opcode.srai = Format.shift 0x20 5 0x13
format_of Opcode.srl = Format.r 0 5 0x33
format_of Opcode.srli = Format.shift 0 5 0x13
format_of Opcode.sub = Format.r 0x20 0 0x33
format_of Opcode.sw = Format.s 2 0x23
format_of Opcode.xor = Format.r 0 4 0x33
format_of Opcode.xori = Format.i 4 0x13
format_of _ = Format.other

-- The six fields of a word, from the top.
abbrev pub fields : ℕ → ℕ → ℕ → ℕ → ℕ → ℕ → ℕ
fields top rs2 rs1 funct3 rd opcode =
    top * 2 ^ 25 + rs2 * 2 ^ 20 + rs1 * 2 ^ 15 + funct3 * 2 ^ 12 + rd * 2 ^ 7 + opcode

-- The word of an instruction in a format; an immediate operand is a 32-bit pattern, of which each
-- format stores some bits.
unfoldable pub encode : Format → Instruction → ℕ
encode (Format.r f7 f3 opc) n = fields f7 n.rs2 n.rs1 f3 n.rd opc
encode (Format.shift f7 f3 opc) n = fields f7 n.imm n.rs1 f3 n.rd opc
encode (Format.i f3 opc) n = fields (n.imm / 2 ^ 5 % 2 ^ 7) (n.imm % 2 ^ 5) n.rs1 f3 n.rd opc
encode (Format.s f3 opc) n = fields (n.imm / 2 ^ 5 % 2 ^ 7) n.rs2 n.rs1 f3 (n.imm % 2 ^ 5) opc
encode (Format.b f3 opc) n =
    fields (n.imm / 2 ^ 12 % 2 * 2 ^ 6 + n.imm / 2 ^ 5 % 2 ^ 6) n.rs2 n.rs1 f3
      (n.imm / 2 % 2 ^ 4 * 2 + n.imm / 2 ^ 11 % 2) opc
encode (Format.u opc) n = n.imm / 2 ^ 12 * 2 ^ 12 + n.rd * 2 ^ 7 + opc
encode (Format.j opc) n =
    n.imm / 2 ^ 20 % 2 * 2 ^ 31
    + n.imm / 2 % 2 ^ 10 * 2 ^ 21
    + n.imm / 2 ^ 11 % 2 * 2 ^ 20
    + n.imm / 2 ^ 12 % 2 ^ 8 * 2 ^ 12
    + n.rd * 2 ^ 7
    + opc
encode (Format.system top) n = top * 2 ^ 20 + 0x73
encode Format.other n = 0

-- A pattern that is a sign-extended number of `k + 1` bits.
abbrev pub IsSigned : ℕ → ℕ → Type 0
IsSigned k imm = (imm < 2 ^ k) ⊎ ((2 ^ 32 ≤ imm + 2 ^ k) × (imm < 2 ^ 32))

-- The operands that a format can store, and 0 for those that it lacks.
abbrev pub Fits : Format → Instruction → Type 0
Fits (Format.r f7 f3 opc) n = (n.rs1 < 32) × (n.rs2 < 32) × (n.rd < 32) × (n.imm ≡ 0)
Fits (Format.shift f7 f3 opc) n = (n.rs1 < 32) × (n.rs2 ≡ 0) × (n.rd < 32) × (n.imm < 32)
Fits (Format.i f3 opc) n = (n.rs1 < 32) × (n.rs2 ≡ 0) × (n.rd < 32) × IsSigned 11 n.imm
Fits (Format.s f3 opc) n = (n.rs1 < 32) × (n.rs2 < 32) × (n.rd ≡ 0) × IsSigned 11 n.imm
Fits (Format.b f3 opc) n =
    (n.rs1 < 32) × (n.rs2 < 32) × (n.rd ≡ 0) × (n.imm % 2 ≡ 0) × IsSigned 12 n.imm
Fits (Format.u opc) n =
    (n.rs1 ≡ 0) × (n.rs2 ≡ 0) × (n.rd < 32) × (n.imm % 2 ^ 12 ≡ 0) × (n.imm < 2 ^ 32)
Fits (Format.j opc) n =
    (n.rs1 ≡ 0) × (n.rs2 ≡ 0) × (n.rd < 32) × (n.imm % 2 ≡ 0) × IsSigned 20 n.imm
Fits (Format.system top) n = (n.rs1 ≡ 0) × (n.rs2 ≡ 0) × (n.rd ≡ 0) × (n.imm ≡ 0)
Fits Format.other n = ⊥

-- The word of an instruction.
unfoldable pub assemble : Instruction → ℕ
assemble n = encode (format_of n.opcode) n

abbrev pub IsAssemblable : Instruction → Type 0
IsAssemblable n = Fits (format_of n.opcode) n
