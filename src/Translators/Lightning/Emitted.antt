-- ===== src/Translators/Lightning/Emitted.antt =====
-- `Lightning` of src/jit/lightning/lightning.cc. A macro or a case of `translate` is here what running
-- the instructions does that it emits; `JIT_R0` to `JIT_R2` are variables.
use jit_research.Base.{
  ℕ, ◌%◌, Bool, true, false, List, length, Outcome, ok, ◌>>=◌, ◌==◌, if◌then◌else◌,
}
use jit_research.Isa.Word.{word_size, word_mod, sign_extend}
use jit_research.Isa.Opcode.{Opcode}
use jit_research.Isa.Decode.{Instruction}
use jit_research.Memory.{MemoryOps, Width, byte, half, word}
use jit_research.CpuState.{CpuState}
use jit_research.Jit.{Translator}
use jit_research.Jit.Cache.{Code}
use jit_research.Translators.Access.{reg, pc, icount, load_helper, store_helper, syscall_helper}
use jit_research.Translators.Emit.{emit_insns}
use jit_research.Translators.Faithful.{library_translator}
use jit_research.Translators.Lightning.{Lightning}

module _ {M : Type 0} (mem : MemoryOps M) (jit : Lightning M) where
  -- `loadReg`, with a sign or without, `storeReg`, `loadPC` and `storePC`
  unfoldable pub load_reg : ℕ → Bool → CpuState M → ℕ
  load_reg rid sign s =
      if rid == 0 then 0 else if sign then jit.ldxi_i (reg rid) s else jit.ldxi_ui (reg rid) s

  abbrev pub store_reg : ℕ → ℕ → CpuState M → CpuState M
  store_reg rid val s = if rid == 0 then s else jit.stxi_i (reg rid) val s

  abbrev pub load_pc : CpuState M → ℕ
  load_pc s = jit.ldxi_ui pc s

  abbrev pub store_pc : ℕ → CpuState M → CpuState M
  store_pc val s = jit.stxi_i pc val s

  -- `PROT_MAKE_IMPL(OP, op1, op2)`, whose second case is that of the shifts by an immediate too
  unfoldable pub r_op : (ℕ → ℕ → ℕ) → Instruction → Code M
  unfolding load_reg
  r_op op1 n s =
      let r0 = load_reg n.rs1 false s in
      let r1 = load_reg n.rs2 false s in ok (store_reg n.rd (op1 r0 r1) s)

  unfoldable pub i_op : (ℕ → ℕ → ℕ) → Instruction → Code M
  unfolding load_reg
  i_op op2 n s = let r0 = load_reg n.rs1 false s in ok (store_reg n.rd (op2 r0 n.imm) s)

  unfoldable pub sra_op : Instruction → Code M
  unfolding load_reg
  sra_op n s =
      let r0 = load_reg n.rs1 true s in
      let r1 = jit.andi (load_reg n.rs2 false s) 0x1f in ok (store_reg n.rd (jit.rshr r0 r1) s)

  unfoldable pub srai_op : Instruction → Code M
  unfolding load_reg
  srai_op n s = let r0 = load_reg n.rs1 true s in ok (store_reg n.rd (jit.rshi r0 n.imm) s)

  -- `PROT_MAKE_SHIFT_IMPL`
  unfoldable pub shift_op : (ℕ → ℕ → ℕ) → Instruction → Code M
  unfolding load_reg
  shift_op op1 n s =
      let r0 = load_reg n.rs1 false s in
      let r1 = jit.andi (load_reg n.rs2 false s) 0x1f in ok (store_reg n.rd (op1 r0 r1) s)

  unfoldable pub auipc_op : Instruction → Code M
  auipc_op n s = let r0 = jit.addi (load_pc s) n.imm in ok (store_reg n.rd r0 s)

  -- `PROT_MAKE_BR`
  unfoldable pub br_op : (ℕ → ℕ → ℕ) → Instruction → Code M
  unfolding load_reg
  br_op cond n s =
      let r0 = cond (load_reg n.rs1 true s) (load_reg n.rs2 true s) in
      let r1 = word_size in
      let r2 = jit.movzr n.imm r1 r0 in ok (store_pc (jit.addr (load_pc s) r2) s)

  unfoldable pub jal_op : Instruction → Code M
  jal_op n s =
      let r0 = load_pc s in
      let r1 = jit.addi r0 word_size in
      let s' = store_reg n.rd r1 s in ok (store_pc (jit.addi r0 n.imm) s')

  unfoldable pub jalr_op : Instruction → Code M
  unfolding load_reg
  jalr_op n s =
      let r0 = jit.addi (load_pc s) word_size in
      let r1 = load_reg n.rs1 false s in
      let s' = store_reg n.rd r0 s in
      let target = jit.andi (jit.addi r1 n.imm) 0xfffffffe in ok (store_pc target s')

  unfoldable pub lui_op : Instruction → Code M
  lui_op n s = let r0 = n.imm in ok (store_reg n.rd r0 s)

  -- The loads and the stores: the helpers take an address of 32 bits.
  unfoldable pub load_op : Width → (ℕ → ℕ) → Instruction → Code M
  unfolding load_reg
  load_op width extend n s = do
    let r0 = jit.addi (load_reg n.rs1 false s) n.imm
    loaded ← load_helper mem width (r0 % word_mod) s
    ok (store_reg n.rd (extend (jit.retval width loaded)) s)

  unfoldable pub store_op : Width → Instruction → Code M
  unfolding load_reg
  store_op width n s =
      let r0 = jit.addi (load_reg n.rs1 false s) n.imm in
      let r1 = load_reg n.rs2 false s in store_helper mem width (r0 % word_mod) r1 s

  unfoldable pub slt_op : Instruction → Code M
  unfolding load_reg
  slt_op n s =
      let r0 = load_reg n.rs1 true s in
      let r1 = load_reg n.rs2 true s in ok (store_reg n.rd (jit.ltr r0 r1) s)

  -- `SLTI` compares with `sextImm`.
  unfoldable pub slti_op : Instruction → Code M
  unfolding load_reg
  slti_op n s =
      let r0 = load_reg n.rs1 true s in
      let r1 = sign_extend 64 64 32 n.imm in ok (store_reg n.rd (jit.ltr r0 r1) s)

  -- The `switch` of `translate`
  unfoldable pub build : Opcode → Instruction → Outcome (Code M)
  build Opcode.add n = ok (r_op jit.addr n)
  build Opcode.addi n = ok (i_op jit.addi n)
  build Opcode.and n = ok (r_op jit.andr n)
  build Opcode.andi n = ok (i_op jit.andi n)
  build Opcode.or n = ok (r_op jit.orr n)
  build Opcode.ori n = ok (i_op jit.ori n)
  build Opcode.xor n = ok (r_op jit.xorr n)
  build Opcode.xori n = ok (i_op jit.xori n)
  build Opcode.sra n = ok (sra_op n)
  build Opcode.srai n = ok (srai_op n)
  build Opcode.srl n = ok (shift_op jit.rshr_u n)
  build Opcode.srli n = ok (i_op jit.rshi_u n)
  build Opcode.sll n = ok (shift_op jit.lshr n)
  build Opcode.slli n = ok (i_op jit.lshi n)
  build Opcode.auipc n = ok (auipc_op n)
  build Opcode.beq n = ok (br_op jit.eqr n)
  build Opcode.bge n = ok (br_op jit.ger n)
  build Opcode.bgeu n = ok (br_op jit.ger_u n)
  build Opcode.blt n = ok (br_op jit.ltr n)
  build Opcode.bltu n = ok (br_op jit.ltr_u n)
  build Opcode.bne n = ok (br_op jit.ner n)
  build Opcode.ebreak n = ok ok
  build Opcode.fence n = ok ok
  build Opcode.ecall n = ok (syscall_helper mem)
  build Opcode.jal n = ok (jal_op n)
  build Opcode.jalr n = ok (jalr_op n)
  build Opcode.lui n = ok (lui_op n)
  build Opcode.pause n = ok ok
  build Opcode.lb n = ok (load_op byte (jit.extr 8) n)
  build Opcode.lbu n = ok (load_op byte (λ r0. r0) n)
  build Opcode.lh n = ok (load_op half (jit.extr 16) n)
  build Opcode.lhu n = ok (load_op half (λ r0. r0) n)
  build Opcode.lw n = ok (load_op word (λ r0. r0) n)
  build Opcode.sb n = ok (store_op byte n)
  build Opcode.sh n = ok (store_op half n)
  build Opcode.sw n = ok (store_op word n)
  build Opcode.sbreak n = ok ok
  build Opcode.scall n = ok ok
  build Opcode.slt n = ok (slt_op n)
  build Opcode.sltu n = ok (r_op jit.ltr n)
  build Opcode.slti n = ok (slti_op n)
  build Opcode.sltiu n = ok (i_op jit.lti_u n)
  build Opcode.sub n = ok (r_op jit.subr n)
  build Opcode.num_opcodes n = ok ok

  unfoldable pub advance_pc : CpuState M → CpuState M
  advance_pc s = store_pc (jit.addi (load_pc s) word_size) s

  -- The end of the function: the count is loaded and stored as 32 bits.
  unfoldable pub update_icount : ℕ → Code M
  update_icount size s = ok (jit.stxi_i icount (jit.addi (jit.ldxi_ui icount s) size) s)

  unfoldable pub emit_block : List Instruction → Outcome (Code M)
  emit_block insns = do
    body ← emit_insns (λ n. build n.opcode n) advance_pc insns
    ok (λ s. body s >>= update_icount (length insns))

  -- `Lightning::translate`, by what `jit_emit` and the `CodeHolder` make of the code
  abbrev pub lightning_translator : (Code M → Outcome (Code M)) → Translator M
  lightning_translator compile = library_translator emit_block compile
