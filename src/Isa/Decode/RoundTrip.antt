-- ===== src/Isa/Decode/RoundTrip.antt =====
-- Every RV32I instruction but FENCE survives assembling and decoding.
use jit_research.Base.{ℕ, ◌≡◌, refl, arith, some}
use jit_research.Isa.Opcode.{Opcode}
use jit_research.Isa.Decode.{Instruction, switch, decode, system_type}
use jit_research.Isa.Decode.Format.{format_of, encode, Fits, assemble, IsAssemblable}
use jit_research.Isa.Decode.Assemble.{
  decode-r, decode-i, decode-s, decode-b, decode-u, decode-j, decode-jalr, decode-shift,
  decode-shift7,
}

abbrev instruction : Opcode → ℕ → ℕ → ℕ → ℕ → Instruction
instruction opcode rs1 rs2 rd imm = record {
  opcode = opcode;
  rs1 = rs1;
  rs2 = rs2;
  rd = rd;
  imm = imm;
}

decode-encode :
    (op : Opcode) (rs1 rs2 rd imm : ℕ)
    → Fits (format_of op) (instruction op rs1 rs2 rd imm)
    → decode (encode (format_of op) (instruction op rs1 rs2 rd imm))
      ≡ some (instruction op rs1 rs2 rd imm)
unfolding switch encode decode system_type
decode-encode Opcode.add rs1 rs2 rd imm fit =
    decode-r (instruction Opcode.add rs1 rs2 rd imm) 0x0 0 0x33 (omega arith) (omega arith)
      (omega arith) (λ w. refl) (λ w. refl) fit
decode-encode Opcode.addi rs1 rs2 rd imm fit =
    decode-i (instruction Opcode.addi rs1 rs2 rd imm) 0 0x13 (omega arith) (omega arith) (λ w. refl)
      fit
decode-encode Opcode.and rs1 rs2 rd imm fit =
    decode-r (instruction Opcode.and rs1 rs2 rd imm) 0x0 7 0x33 (omega arith) (omega arith)
      (omega arith) (λ w. refl) (λ w. refl) fit
decode-encode Opcode.andi rs1 rs2 rd imm fit =
    decode-i (instruction Opcode.andi rs1 rs2 rd imm) 7 0x13 (omega arith) (omega arith) (λ w. refl)
      fit
decode-encode Opcode.auipc rs1 rs2 rd imm fit =
    decode-u (instruction Opcode.auipc rs1 rs2 rd imm) 0x17 (omega arith) (omega arith)
      (omega arith) (λ w. refl) fit
decode-encode Opcode.beq rs1 rs2 rd imm fit =
    decode-b (instruction Opcode.beq rs1 rs2 rd imm) 0 0x63 (omega arith) (omega arith) (λ w. refl)
      fit
decode-encode Opcode.bge rs1 rs2 rd imm fit =
    decode-b (instruction Opcode.bge rs1 rs2 rd imm) 5 0x63 (omega arith) (omega arith) (λ w. refl)
      fit
decode-encode Opcode.bgeu rs1 rs2 rd imm fit =
    decode-b (instruction Opcode.bgeu rs1 rs2 rd imm) 7 0x63 (omega arith) (omega arith) (λ w. refl)
      fit
decode-encode Opcode.blt rs1 rs2 rd imm fit =
    decode-b (instruction Opcode.blt rs1 rs2 rd imm) 4 0x63 (omega arith) (omega arith) (λ w. refl)
      fit
decode-encode Opcode.bltu rs1 rs2 rd imm fit =
    decode-b (instruction Opcode.bltu rs1 rs2 rd imm) 6 0x63 (omega arith) (omega arith) (λ w. refl)
      fit
decode-encode Opcode.bne rs1 rs2 rd imm fit =
    decode-b (instruction Opcode.bne rs1 rs2 rd imm) 1 0x63 (omega arith) (omega arith) (λ w. refl)
      fit
decode-encode Opcode.ebreak rs1 rs2 rd imm fit = ground arith
decode-encode Opcode.ecall rs1 rs2 rd imm fit = ground arith
decode-encode Opcode.fence rs1 rs2 rd imm fit = absurd fit
decode-encode Opcode.jal rs1 rs2 rd imm fit =
    decode-j (instruction Opcode.jal rs1 rs2 rd imm) 0x6f (omega arith) (omega arith) (omega arith)
      (λ w. refl) fit
decode-encode Opcode.jalr rs1 rs2 rd imm fit =
    decode-jalr (instruction Opcode.jalr rs1 rs2 rd imm) 0x67 (omega arith) (omega arith)
      (omega arith) (λ w. refl) fit
decode-encode Opcode.lb rs1 rs2 rd imm fit =
    decode-i (instruction Opcode.lb rs1 rs2 rd imm) 0 0x3 (omega arith) (omega arith) (λ w. refl)
      fit
decode-encode Opcode.lbu rs1 rs2 rd imm fit =
    decode-i (instruction Opcode.lbu rs1 rs2 rd imm) 4 0x3 (omega arith) (omega arith) (λ w. refl)
      fit
decode-encode Opcode.lh rs1 rs2 rd imm fit =
    decode-i (instruction Opcode.lh rs1 rs2 rd imm) 1 0x3 (omega arith) (omega arith) (λ w. refl)
      fit
decode-encode Opcode.lhu rs1 rs2 rd imm fit =
    decode-i (instruction Opcode.lhu rs1 rs2 rd imm) 5 0x3 (omega arith) (omega arith) (λ w. refl)
      fit
decode-encode Opcode.lui rs1 rs2 rd imm fit =
    decode-u (instruction Opcode.lui rs1 rs2 rd imm) 0x37 (omega arith) (omega arith) (omega arith)
      (λ w. refl) fit
decode-encode Opcode.lw rs1 rs2 rd imm fit =
    decode-i (instruction Opcode.lw rs1 rs2 rd imm) 2 0x3 (omega arith) (omega arith) (λ w. refl)
      fit
decode-encode Opcode.or rs1 rs2 rd imm fit =
    decode-r (instruction Opcode.or rs1 rs2 rd imm) 0x0 6 0x33 (omega arith) (omega arith)
      (omega arith) (λ w. refl) (λ w. refl) fit
decode-encode Opcode.ori rs1 rs2 rd imm fit =
    decode-i (instruction Opcode.ori rs1 rs2 rd imm) 6 0x13 (omega arith) (omega arith) (λ w. refl)
      fit
decode-encode Opcode.pause rs1 rs2 rd imm fit = absurd fit
decode-encode Opcode.sb rs1 rs2 rd imm fit =
    decode-s (instruction Opcode.sb rs1 rs2 rd imm) 0 0x23 (omega arith) (omega arith) (λ w. refl)
      fit
decode-encode Opcode.sbreak rs1 rs2 rd imm fit = absurd fit
decode-encode Opcode.scall rs1 rs2 rd imm fit = absurd fit
decode-encode Opcode.sh rs1 rs2 rd imm fit =
    decode-s (instruction Opcode.sh rs1 rs2 rd imm) 1 0x23 (omega arith) (omega arith) (λ w. refl)
      fit
decode-encode Opcode.sll rs1 rs2 rd imm fit =
    decode-r (instruction Opcode.sll rs1 rs2 rd imm) 0x0 1 0x33 (omega arith) (omega arith)
      (omega arith) (λ w. refl) (λ w. refl) fit
decode-encode Opcode.slli rs1 rs2 rd imm fit =
    decode-shift (instruction Opcode.slli rs1 rs2 rd imm) 1 0x13 (omega arith) (omega arith)
      (λ w. refl) fit
decode-encode Opcode.slt rs1 rs2 rd imm fit =
    decode-r (instruction Opcode.slt rs1 rs2 rd imm) 0x0 2 0x33 (omega arith) (omega arith)
      (omega arith) (λ w. refl) (λ w. refl) fit
decode-encode Opcode.slti rs1 rs2 rd imm fit =
    decode-i (instruction Opcode.slti rs1 rs2 rd imm) 2 0x13 (omega arith) (omega arith) (λ w. refl)
      fit
decode-encode Opcode.sltiu rs1 rs2 rd imm fit =
    decode-i (instruction Opcode.sltiu rs1 rs2 rd imm) 3 0x13 (omega arith) (omega arith)
      (λ w. refl) fit
decode-encode Opcode.sltu rs1 rs2 rd imm fit =
    decode-r (instruction Opcode.sltu rs1 rs2 rd imm) 0x0 3 0x33 (omega arith) (omega arith)
      (omega arith) (λ w. refl) (λ w. refl) fit
decode-encode Opcode.sra rs1 rs2 rd imm fit =
    decode-r (instruction Opcode.sra rs1 rs2 rd imm) 0x20 5 0x33 (omega arith) (omega arith)
      (omega arith) (λ w. refl) (λ w. refl) fit
decode-encode Opcode.srai rs1 rs2 rd imm fit =
    decode-shift7 (instruction Opcode.srai rs1 rs2 rd imm) 0x20 5 0x13 (omega arith) (omega arith)
      (omega arith) (λ w. refl) (λ w. refl) fit
decode-encode Opcode.srl rs1 rs2 rd imm fit =
    decode-r (instruction Opcode.srl rs1 rs2 rd imm) 0x0 5 0x33 (omega arith) (omega arith)
      (omega arith) (λ w. refl) (λ w. refl) fit
decode-encode Opcode.srli rs1 rs2 rd imm fit =
    decode-shift7 (instruction Opcode.srli rs1 rs2 rd imm) 0x0 5 0x13 (omega arith) (omega arith)
      (omega arith) (λ w. refl) (λ w. refl) fit
decode-encode Opcode.sub rs1 rs2 rd imm fit =
    decode-r (instruction Opcode.sub rs1 rs2 rd imm) 0x20 0 0x33 (omega arith) (omega arith)
      (omega arith) (λ w. refl) (λ w. refl) fit
decode-encode Opcode.sw rs1 rs2 rd imm fit =
    decode-s (instruction Opcode.sw rs1 rs2 rd imm) 2 0x23 (omega arith) (omega arith) (λ w. refl)
      fit
decode-encode Opcode.xor rs1 rs2 rd imm fit =
    decode-r (instruction Opcode.xor rs1 rs2 rd imm) 0x0 4 0x33 (omega arith) (omega arith)
      (omega arith) (λ w. refl) (λ w. refl) fit
decode-encode Opcode.xori rs1 rs2 rd imm fit =
    decode-i (instruction Opcode.xori rs1 rs2 rd imm) 4 0x13 (omega arith) (omega arith) (λ w. refl)
      fit
decode-encode Opcode.num_opcodes rs1 rs2 rd imm fit = absurd fit

-- Every RV32I instruction other than FENCE whose operands its format can store, assembled as the manual
-- lays the fields out, decodes to that very instruction: the opcode, the registers and the immediate
-- operand, sign-extended as the format says. FENCE, and the opcodes that are not in RV32I, have no
-- format here and are not assemblable.
pub decode-assemble : (n : Instruction) → IsAssemblable n → decode (assemble n) ≡ some n
unfolding assemble
decode-assemble n fit = decode-encode n.opcode n.rs1 n.rs2 n.rd n.imm fit
