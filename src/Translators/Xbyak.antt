-- ===== src/Translators/Xbyak.antt =====
-- `XByakJit` of src/jit/xbyak/xbyak.cc. A case of `translate` is here what running the instructions
-- does that it emits; a machine register is a variable.
pub mod Correct
pub mod Refines
use jit_research.Base.{
  ℕ, ◌%◌, ◌^◌, List, [], ◌∷◌, Outcome, ok, fail, Failure, ◌>>=◌, ◌==◌, if◌then◌else◌,
}
use jit_research.Isa.Word.{word_size}
use jit_research.Isa.Opcode
use jit_research.Isa.Opcode.{Opcode}
use jit_research.Isa.Decode.{Instruction}
use jit_research.Memory.{MemoryOps, Width, byte, half, word}
use jit_research.CpuState.{CpuState}
use jit_research.Jit.{Translator}
use jit_research.Jit.Cache.{Code}
use jit_research.Translators.Access.{reg, pc, icount, load_helper, store_helper, syscall_helper}
use jit_research.Translators.Emit.{emit_closed}
use jit_research.Translators.Faithful.{library_translator}
use jit_research.Translators.X86
use jit_research.Translators.X86.{X86, Cond}

module _ {M : Type 0} (mem : MemoryOps M) (x86 : X86 M) where
  -- `getRs1` and `getRs2`, and `setRd`
  abbrev pub get_rs : ℕ → CpuState M → ℕ
  get_rs idx s = x86.load (reg idx) s

  abbrev pub set_rd : ℕ → ℕ → CpuState M → CpuState M
  set_rd rd val s = if rd == 0 then s else x86.store (reg rd) val s

  -- `PROT_MAKE_IMPL(OP, op)`, whose second case is that of the shifts by an immediate too.
  unfoldable pub reg_op : (ℕ → ℕ → ℕ) → Instruction → Code M
  reg_op op n s =
      let temp1 = get_rs n.rs1 s in
      let temp1' = op temp1 (get_rs n.rs2 s) in ok (set_rd n.rd temp1' s)

  unfoldable pub imm_op : (ℕ → ℕ → ℕ) → Instruction → Code M
  imm_op op n s =
      let temp1 = get_rs n.rs1 s in let temp1' = op temp1 n.imm in ok (set_rd n.rd temp1' s)

  unfoldable pub auipc_op : Instruction → Code M
  auipc_op n s =
      let temp1 = x86.load pc s in let temp1' = x86.add temp1 n.imm in ok (set_rd n.rd temp1' s)

  -- `PROT_MAKE_IMPL(Op, cc)` of the branches; `mov` leaves the flags alone.
  unfoldable pub branch_op : Cond → Instruction → Code M
  branch_op cond n s =
      let flags = x86.cmp (get_rs n.rs1 s) (get_rs n.rs2 s) in
      let temp1 = word_size in
      let temp2 = n.imm in
      let temp1' = x86.cmov cond flags temp1 temp2 in ok (x86.add_to pc temp1' s)

  unfoldable pub jal_op : Instruction → Code M
  jal_op n s =
      let temp1 = x86.add (x86.load pc s) word_size in
      let s' = set_rd n.rd temp1 s in ok (x86.add_to pc n.imm s')

  unfoldable pub jalr_op : Instruction → Code M
  jalr_op n s =
      let temp1 = x86.add (x86.load pc s) word_size in
      let temp2 = x86.add (get_rs n.rs1 s) n.imm in
      let temp2' = x86.and temp2 0xfffffffe in
      let s' = x86.store pc temp2' s in ok (set_rd n.rd temp1 s')

  unfoldable pub lui_op : Instruction → Code M
  lui_op n s = ok (set_rd n.rd n.imm s)

  -- The loads: `extend` is what the second `switch` does to `eax`.
  unfoldable pub load_op : Width → (ℕ → ℕ) → Instruction → Code M
  load_op width extend n s = do
    loaded ← load_helper mem width (x86.add (get_rs n.rs1 s) n.imm) s
    ok (set_rd n.rd (extend (x86.returned width loaded)) s)

  -- `PROT_MAKE_IMPL(Op, Op2, cc)` of the comparisons
  unfoldable pub set_op : Cond → Instruction → Code M
  set_op cond n s =
      let flags = x86.cmp (get_rs n.rs1 s) (get_rs n.rs2 s) in
      let temp1 : ℕ = 0 in ok (set_rd n.rd (x86.setcc cond flags temp1) s)

  unfoldable pub set_imm_op : Cond → Instruction → Code M
  set_imm_op cond n s =
      let flags = x86.cmp (get_rs n.rs1 s) n.imm in
      let temp1 : ℕ = 0 in ok (set_rd n.rd (x86.setcc cond flags temp1) s)

  -- `PROT_MAKE_IMPL(Op, op)` of the shifts: the amount is `cl`, the low byte of `ecx`.
  unfoldable pub shift_op : (ℕ → ℕ → ℕ) → Instruction → Code M
  shift_op op n s =
      let temp1 = get_rs n.rs1 s in
      let ecx = get_rs n.rs2 s in ok (set_rd n.rd (op temp1 (ecx % 2 ^ 8)) s)

  unfoldable pub store_op : Width → Instruction → Code M
  store_op width n s = store_helper mem width (x86.add (get_rs n.rs1 s) n.imm) (get_rs n.rs2 s) s

  -- The `switch` of `translate`
  unfoldable pub build : Opcode → Instruction → Outcome (Code M)
  build Opcode.add n = ok (reg_op x86.add n)
  build Opcode.addi n = ok (imm_op x86.add n)
  build Opcode.and n = ok (reg_op x86.and n)
  build Opcode.andi n = ok (imm_op x86.and n)
  build Opcode.or n = ok (reg_op x86.or n)
  build Opcode.ori n = ok (imm_op x86.or n)
  build Opcode.xor n = ok (reg_op x86.xor n)
  build Opcode.xori n = ok (imm_op x86.xor n)
  build Opcode.auipc n = ok (auipc_op n)
  build Opcode.beq n = ok (branch_op X86.e n)
  build Opcode.bge n = ok (branch_op X86.ge n)
  build Opcode.bgeu n = ok (branch_op X86.ae n)
  build Opcode.blt n = ok (branch_op X86.l n)
  build Opcode.bltu n = ok (branch_op X86.b n)
  build Opcode.bne n = ok (branch_op X86.ne n)
  build Opcode.ebreak n = ok ok
  build Opcode.ecall n = ok (syscall_helper mem)
  build Opcode.fence n = ok ok
  build Opcode.jal n = ok (jal_op n)
  build Opcode.jalr n = ok (jalr_op n)
  build Opcode.lui n = ok (lui_op n)
  build Opcode.lb n = ok (load_op byte (λ eax. x86.cwde (x86.cbw eax)) n)
  build Opcode.lbu n = ok (load_op byte (λ eax. eax) n)
  build Opcode.lh n = ok (load_op half x86.cwde n)
  build Opcode.lhu n = ok (load_op half (λ eax. eax) n)
  build Opcode.lw n = ok (load_op word (λ eax. eax) n)
  build Opcode.pause n = ok ok
  build Opcode.sbreak n = ok ok
  build Opcode.scall n = ok ok
  build Opcode.slt n = ok (set_op X86.l n)
  build Opcode.slti n = ok (set_imm_op X86.l n)
  build Opcode.sltu n = ok (set_op X86.b n)
  build Opcode.sltiu n = ok (set_imm_op X86.b n)
  build Opcode.sll n = ok (shift_op x86.shl n)
  build Opcode.slli n = ok (imm_op x86.shl n)
  build Opcode.sra n = ok (shift_op x86.sar_by n)
  build Opcode.srai n = ok (imm_op x86.sar_by n)
  build Opcode.srl n = ok (shift_op x86.shr n)
  build Opcode.srli n = ok (imm_op x86.shr n)
  build Opcode.sub n = ok (reg_op x86.sub n)
  build Opcode.sb n = ok (store_op byte n)
  build Opcode.sh n = ok (store_op half n)
  build Opcode.sw n = ok (store_op word n)
  build Opcode.num_opcodes n = fail Failure.invalid_argument

  unfoldable pub advance_pc : CpuState M → CpuState M
  advance_pc s = x86.add_to pc word_size s

  -- `inc(qword[frame.p[0] + offsetof(CPUState, icount)])`
  unfoldable pub count_insn : CpuState M → CpuState M
  count_insn s = x86.inc64 icount s

  -- The loop
  unfoldable pub generate : List Instruction → Outcome (Code M)
  generate insns = emit_closed (λ n. build n.opcode n) advance_pc count_insn insns

  -- `XByakJit::translate`; what is parametric is the assembler and the `CodeHolder`, which may throw.
  abbrev pub xbyak_translator : (Code M → Outcome (Code M)) → Translator M
  xbyak_translator compile = library_translator generate compile
