-- ===== src/Isa/Opcode.antt =====
-- `Opcode` and its predicates in src/isa/include/prot/isa.hh, `Opc2StrMap` in src/isa/isa.cc.
use Prim.Native.String.{String}
use jit_research.Base.{ℕ, ltb, Bool, true, false, Outcome, ok, fail, Failure, if◌then◌else◌}

pub data Opcode : Type 0 where
  add addi and andi auipc beq bge bgeu blt bltu bne ebreak ecall fence jal jalr lb lbu lh lhu :
      Opcode
  lui lw or ori pause sb sbreak scall sh sll slli slt slti sltiu sltu sra srai srl srli sub sw :
      Opcode
  xor xori num_opcodes : Opcode

-- `toUnderlying(opc)`
pub to_underlying : Opcode → ℕ
to_underlying add = 0
to_underlying addi = 1
to_underlying and = 2
to_underlying andi = 3
to_underlying auipc = 4
to_underlying beq = 5
to_underlying bge = 6
to_underlying bgeu = 7
to_underlying blt = 8
to_underlying bltu = 9
to_underlying bne = 10
to_underlying ebreak = 11
to_underlying ecall = 12
to_underlying fence = 13
to_underlying jal = 14
to_underlying jalr = 15
to_underlying lb = 16
to_underlying lbu = 17
to_underlying lh = 18
to_underlying lhu = 19
to_underlying lui = 20
to_underlying lw = 21
to_underlying or = 22
to_underlying ori = 23
to_underlying pause = 24
to_underlying sb = 25
to_underlying sbreak = 26
to_underlying scall = 27
to_underlying sh = 28
to_underlying sll = 29
to_underlying slli = 30
to_underlying slt = 31
to_underlying slti = 32
to_underlying sltiu = 33
to_underlying sltu = 34
to_underlying sra = 35
to_underlying srai = 36
to_underlying srl = 37
to_underlying srli = 38
to_underlying sub = 39
to_underlying sw = 40
to_underlying xor = 41
to_underlying xori = 42
to_underlying num_opcodes = 43

-- `isTerminator`
unfoldable pub is_terminator : Opcode → Outcome Bool
is_terminator num_opcodes = fail Failure.invalid_argument
is_terminator beq = ok true
is_terminator bge = ok true
is_terminator bgeu = ok true
is_terminator blt = ok true
is_terminator bltu = ok true
is_terminator bne = ok true
is_terminator ebreak = ok true
is_terminator ecall = ok true
is_terminator fence = ok true
is_terminator jal = ok true
is_terminator jalr = ok true
is_terminator _ = ok false

-- `changesPC`
unfoldable pub changes_pc : Opcode → Outcome Bool
changes_pc num_opcodes = fail Failure.invalid_argument
changes_pc beq = ok true
changes_pc bge = ok true
changes_pc bgeu = ok true
changes_pc blt = ok true
changes_pc bltu = ok true
changes_pc bne = ok true
changes_pc jal = ok true
changes_pc jalr = ok true
changes_pc _ = ok false

-- What `Opc2StrMap` holds at the index of an opcode. The last constructor is no index of the array.
pub name_at : Opcode → String
name_at add = "ADD"
name_at addi = "ADDI"
name_at and = "AND"
name_at andi = "ANDI"
name_at auipc = "AUIPC"
name_at beq = "BEQ"
name_at bge = "BGE"
name_at bgeu = "BGEU"
name_at blt = "BLT"
name_at bltu = "BLTU"
name_at bne = "BNE"
name_at ebreak = "EBREAK"
name_at ecall = "ECALL"
name_at fence = "FENCE"
name_at jal = "JAL"
name_at jalr = "JALR"
name_at lb = "LB"
name_at lbu = "LBU"
name_at lh = "LH"
name_at lhu = "LHU"
name_at lui = "LUI"
name_at lw = "LW"
name_at or = "OR"
name_at ori = "ORI"
name_at pause = "PAUSE"
name_at sb = "SB"
name_at sbreak = "SBREAK"
name_at scall = "SCALL"
name_at sh = "SH"
name_at sll = "SLL"
name_at slli = "SLLI"
name_at slt = "SLT"
name_at slti = "SLTI"
name_at sltiu = "SLTIU"
name_at sltu = "SLTU"
name_at sra = "SRA"
name_at srai = "SRAI"
name_at srl = "SRL"
name_at srli = "SRLI"
name_at sub = "SUB"
name_at sw = "SW"
name_at xor = "XOR"
name_at xori = "XORI"
name_at num_opcodes = ""

-- `getName(opc)`, which `strOpc` and `mnemonic` call. Its guard lets `kNumOpcodes` pass, which is
-- one past the end of the array.
unfoldable pub get_name : Opcode → Outcome String
unfolding to_underlying name_at
get_name opc =
    if ltb 43 (to_underlying opc)
    then fail Failure.invalid_argument
    else if ltb (to_underlying opc) 43
    then ok (name_at opc)
    else fail Failure.undefined_behaviour
