-- ===== src/Translators/Asmjit.antt =====
-- `AsmJit` of src/jit/asmjit/asmjit.cc. A macro or a case of `translate` is here what running the
-- instructions does that it emits; a virtual register is a variable.
pub mod Correct
pub mod Refines
use jit_research.Base.{
  ℕ, List, [], ◌∷◌, length, Outcome, ok, fail, Failure, ◌>>=◌, ◌==◌, if◌then◌else◌,
}
use jit_research.Isa.Word.{word_size}
use jit_research.Isa.Opcode
use jit_research.Isa.Opcode.{Opcode}
use jit_research.Isa.Decode.{Instruction}
use jit_research.Memory.{MemoryOps, Width, byte, half, word}
use jit_research.CpuState.{CpuState}
use jit_research.Jit.{Translator}
use jit_research.Jit.Cache.{Code}
use jit_research.Translators.Access.{reg, pc, icount, load_helper, store_helper, syscall_helper}
use jit_research.Translators.Emit.{emit_insns}
use jit_research.Translators.Faithful.{library_translator}
use jit_research.Translators.X86
use jit_research.Translators.X86.{X86, Cond}

-- `stale` is what the register `rd` holds from before an instruction: anything.
module _ {M : Type 0} (mem : MemoryOps M) (x86 : X86 M) (stale : CpuState M → ℕ) where
  -- `loadReg` and `setDst`
  abbrev pub load_reg : ℕ → CpuState M → ℕ
  load_reg idx s = if idx == 0 then 0 else x86.load (reg idx) s

  abbrev pub set_dst : ℕ → ℕ → CpuState M → CpuState M
  set_dst rd val s = if rd == 0 then s else x86.store (reg rd) val s

  -- `PROT_ASMJIT_R_OP`, and `PROT_ASMJIT_I_OP` and `PROT_ASMJIT_I_SHIFT_OP`
  unfoldable pub r_op : (ℕ → ℕ → ℕ) → Instruction → Code M
  r_op op n s =
      let rs1 = load_reg n.rs1 s in
      let rs2 = load_reg n.rs2 s in let rs1' = op rs1 rs2 in ok (set_dst n.rd rs1' s)

  unfoldable pub i_op : (ℕ → ℕ → ℕ) → Instruction → Code M
  i_op op n s = let rs1 = load_reg n.rs1 s in let rs1' = op rs1 n.imm in ok (set_dst n.rd rs1' s)

  -- `PROT_ASMJIT_R_CMP_OP`, which compares the second operand with the first, and
  -- `PROT_ASMJIT_I_CMP_OP`
  unfoldable pub r_cmp_op : Cond → Instruction → Code M
  r_cmp_op cond n s =
      let rs1 = load_reg n.rs1 s in
      let rs2 = load_reg n.rs2 s in
      let flags = x86.cmp rs2 rs1 in
      let rd = x86.setcc cond flags (stale s) in ok (set_dst n.rd (x86.movzx8 rd) s)

  unfoldable pub i_cmp_op : Cond → Instruction → Code M
  i_cmp_op cond n s =
      let rs1 = load_reg n.rs1 s in
      let flags = x86.cmp rs1 n.imm in
      let rd = x86.setcc cond flags (stale s) in ok (set_dst n.rd (x86.movzx8 rd) s)

  -- `PROT_ASMJIT_B_COND_OP`; `mov` leaves the flags alone.
  unfoldable pub b_cond_op : Cond → Instruction → Code M
  b_cond_op cond n s =
      let flags = x86.cmp (load_reg n.rs1 s) (load_reg n.rs2 s) in
      let rs1 = word_size in
      let rs2 = n.imm in let rs1' = x86.cmov cond flags rs1 rs2 in ok (x86.add_to pc rs1' s)

  -- `PROT_ASMJIT_S_OP` and `PROT_ASMJIT_L_OP`
  unfoldable pub s_op : Width → Instruction → Code M
  s_op width n s = store_helper mem width (x86.add (load_reg n.rs1 s) n.imm) (load_reg n.rs2 s) s

  unfoldable pub l_op : Width → (ℕ → ℕ) → Instruction → Code M
  l_op width extend n s = do
    loaded ← load_helper mem width (x86.add (load_reg n.rs1 s) n.imm) s
    ok (set_dst n.rd (extend (x86.returned width loaded)) s)

  -- The other cases
  unfoldable pub jal_op : Instruction → Code M
  jal_op n s =
      let rd = x86.add (x86.load pc s) word_size in
      let s' = set_dst n.rd rd s in
      let target = x86.add (x86.load pc s') n.imm in ok (x86.store pc target s')

  unfoldable pub jalr_op : Instruction → Code M
  jalr_op n s =
      let rd = x86.add (x86.load pc s) word_size in
      let target = x86.and (x86.add (load_reg n.rs1 s) n.imm) 0xfffffffe in
      let s' = set_dst n.rd rd s in ok (x86.store pc target s')

  unfoldable pub lui_op : Instruction → Code M
  lui_op n s = let rs1 = n.imm in ok (set_dst n.rd rs1 s)

  unfoldable pub auipc_op : Instruction → Code M
  auipc_op n s = let rs1 = x86.add (x86.load pc s) n.imm in ok (set_dst n.rd rs1 s)

  -- The `switch` of `translate`
  unfoldable pub build : Opcode → Instruction → Outcome (Code M)
  build Opcode.add n = ok (r_op x86.add n)
  build Opcode.addi n = ok (i_op x86.add n)
  build Opcode.and n = ok (r_op x86.and n)
  build Opcode.andi n = ok (i_op x86.and n)
  build Opcode.or n = ok (r_op x86.or n)
  build Opcode.ori n = ok (i_op x86.or n)
  build Opcode.xor n = ok (r_op x86.xor n)
  build Opcode.xori n = ok (i_op x86.xor n)
  build Opcode.sll n = ok (r_op x86.shl n)
  build Opcode.slli n = ok (i_op x86.shl n)
  build Opcode.sra n = ok (r_op x86.sar_by n)
  build Opcode.srai n = ok (i_op x86.sar_by n)
  build Opcode.srl n = ok (r_op x86.shr n)
  build Opcode.srli n = ok (i_op x86.shr n)
  build Opcode.sub n = ok (r_op x86.sub n)
  build Opcode.slt n = ok (r_cmp_op X86.g n)
  build Opcode.sltu n = ok (r_cmp_op X86.a n)
  build Opcode.slti n = ok (i_cmp_op X86.l n)
  build Opcode.sltiu n = ok (i_cmp_op X86.b n)
  build Opcode.beq n = ok (b_cond_op X86.e n)
  build Opcode.bne n = ok (b_cond_op X86.ne n)
  build Opcode.blt n = ok (b_cond_op X86.l n)
  build Opcode.bge n = ok (b_cond_op X86.ge n)
  build Opcode.bltu n = ok (b_cond_op X86.b n)
  build Opcode.bgeu n = ok (b_cond_op X86.ae n)
  build Opcode.lb n = ok (l_op byte x86.movsx8 n)
  build Opcode.lh n = ok (l_op half x86.movsx16 n)
  build Opcode.lbu n = ok (l_op byte (λ rd. rd) n)
  build Opcode.lhu n = ok (l_op half (λ rd. rd) n)
  build Opcode.lw n = ok (l_op word (λ rd. rd) n)
  build Opcode.sb n = ok (s_op byte n)
  build Opcode.sh n = ok (s_op half n)
  build Opcode.sw n = ok (s_op word n)
  build Opcode.jal n = ok (jal_op n)
  build Opcode.jalr n = ok (jalr_op n)
  build Opcode.lui n = ok (lui_op n)
  build Opcode.auipc n = ok (auipc_op n)
  build Opcode.ecall n = ok (syscall_helper mem)
  build Opcode.fence n = ok ok
  build Opcode.ebreak n = ok ok
  build Opcode.pause n = ok ok
  build Opcode.sbreak n = ok ok
  build Opcode.scall n = ok ok
  build Opcode.num_opcodes n = fail Failure.invalid_argument

  unfoldable pub advance_pc : CpuState M → CpuState M
  advance_pc s = x86.store pc (x86.add (x86.load pc s) word_size) s

  -- The end of the function adds to a `dword`.
  unfoldable pub update_icount : ℕ → Code M
  update_icount size s = ok (x86.add_to icount size s)

  unfoldable pub compile_insns : List Instruction → Outcome (Code M)
  compile_insns insns = do
    body ← emit_insns (λ n. build n.opcode n) advance_pc insns
    ok (λ s. body s >>= update_icount (length insns))

  -- `AsmJit::translate`: `runtime.add` may fail, and then it throws.
  abbrev pub asmjit_translator : (Code M → Outcome (Code M)) → Translator M
  asmjit_translator compile = library_translator compile_insns compile
