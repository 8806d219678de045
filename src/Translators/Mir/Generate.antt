-- ===== src/Translators/Mir/Generate.antt =====
-- `MIRJit` of src/jit/mir/mir.cc. A macro or a case of `translate` is here what running the instructions
-- does that it appends; a MIR register is a variable, and `pc_reg` lives through the block.
use jit_research.Base.{
  ℕ, Bool, List, length, Outcome, ok, fail, Failure, ◌>>=◌, ◌==◌, if◌then◌else◌,
}
use jit_research.Isa.Word.{word_size}
use jit_research.Isa.Opcode.{Opcode}
use jit_research.Isa.Decode.{Instruction}
use jit_research.Memory.{MemoryOps, Width, byte, half, word}
use jit_research.CpuState.{CpuState}
use jit_research.Jit.{Translator}
use jit_research.Jit.Cache.{Code}
use jit_research.Translators.Access.{reg, pc, icount, load_helper, store_helper, syscall_helper}
use jit_research.Translators.Emit.{emit_insns}
use jit_research.Translators.Faithful.{library_translator}
use jit_research.Translators.Mir.{Mir, MirType, i8, u8, i16, u16, u32}

-- The register `pc_reg`, of 64 bits, and the CPU state.
pub record MirState (M : Type 0) : Type 0 where
  pub pc_reg : ℕ
  pub cpu : CpuState M

module _ {M : Type 0} (mem : MemoryOps M) (mir : Mir M) where
  abbrev MirCode : Type 0
  MirCode = MirState M → Outcome (MirState M)

  -- `loadReg` and `setDst`
  abbrev pub load_reg : ℕ → CpuState M → ℕ
  load_reg idx s = if idx == 0 then 0 else mir.load_u32 (reg idx) s

  abbrev pub set_dst : ℕ → ℕ → CpuState M → CpuState M
  set_dst rd val s = if rd == 0 then s else mir.store_u32 (reg rd) val s

  -- `PROT_MIR_R_OP` and `PROT_MIR_I_OP`
  unfoldable pub r_op : (ℕ → ℕ → ℕ) → Instruction → MirCode
  r_op op n u =
      let rs1_reg = load_reg n.rs1 u.cpu in
      let rs2_reg = load_reg n.rs2 u.cpu in
      let rd_reg = op rs1_reg rs2_reg in ok (record u { cpu = set_dst n.rd rd_reg u.cpu })

  unfoldable pub i_op : (ℕ → ℕ → ℕ) → Instruction → MirCode
  i_op op n u =
      let rs1_reg = load_reg n.rs1 u.cpu in
      let rd_reg = op rs1_reg n.imm in ok (record u { cpu = set_dst n.rd rd_reg u.cpu })

  -- `PROT_MIR_B_COND_OP`
  unfoldable pub b_cond_op : (ℕ → ℕ → Bool) → Instruction → MirCode
  b_cond_op cond n u =
      let rs1_reg = load_reg n.rs1 u.cpu in
      let rs2_reg = load_reg n.rs2 u.cpu in
      ok (record u {
        pc_reg =
            if cond rs1_reg rs2_reg then mir.adds u.pc_reg n.imm else mir.adds u.pc_reg word_size;
      })

  -- `PROT_MIR_S_OP`, which loads the source without `loadReg`, and `PROT_MIR_L_OP`
  unfoldable pub s_op : Width → MirType → Instruction → MirCode
  s_op width type n u = do
    let rs1_reg = mir.adds (load_reg n.rs1 u.cpu) n.imm
    let rs2_reg = mir.load_u32 (reg n.rs2) u.cpu
    s ← store_helper mem width (mir.argument u32 rs1_reg) (mir.argument type rs2_reg) u.cpu
    ok (record u { cpu = s })

  unfoldable pub l_op : Width → MirType → Instruction → MirCode
  l_op width type n u = do
    let rs1_reg = mir.adds (load_reg n.rs1 u.cpu) n.imm
    loaded ← load_helper mem width (mir.argument u32 rs1_reg) u.cpu
    ok (record u { cpu = set_dst n.rd (mir.result type loaded) u.cpu })

  -- The other cases
  unfoldable pub jal_op : Instruction → MirCode
  jal_op n u =
      let rd_reg = mir.adds u.pc_reg word_size in
      ok (record u { cpu = set_dst n.rd rd_reg u.cpu; pc_reg = mir.adds u.pc_reg n.imm })

  -- The mask is the `int` `~1`, extended to 64 bits.
  unfoldable pub jalr_op : Instruction → MirCode
  jalr_op n u =
      let rd_reg = mir.adds u.pc_reg word_size in
      let rs1_reg = load_reg n.rs1 u.cpu in
      let target = mir.adds rs1_reg n.imm in
      ok
        (record u { pc_reg = mir.and64 target 0xfffffffffffffffe; cpu = set_dst n.rd rd_reg u.cpu })

  unfoldable pub lui_op : Instruction → MirCode
  lui_op n u = let rs1_reg = n.imm in ok (record u { cpu = set_dst n.rd rs1_reg u.cpu })

  unfoldable pub auipc_op : Instruction → MirCode
  auipc_op n u =
      let rs1_reg = mir.adds u.pc_reg n.imm in ok (record u { cpu = set_dst n.rd rs1_reg u.cpu })

  unfoldable pub ecall_op : MirCode
  ecall_op u = do s ← syscall_helper mem u.cpu; ok (record u { cpu = s })

  -- The `switch` of `translate`
  unfoldable pub build : Opcode → Instruction → Outcome MirCode
  build Opcode.add n = ok (r_op mir.adds n)
  build Opcode.addi n = ok (i_op mir.adds n)
  build Opcode.and n = ok (r_op mir.ands n)
  build Opcode.andi n = ok (i_op mir.ands n)
  build Opcode.or n = ok (r_op mir.ors n)
  build Opcode.ori n = ok (i_op mir.ors n)
  build Opcode.xor n = ok (r_op mir.xors n)
  build Opcode.xori n = ok (i_op mir.xors n)
  build Opcode.sll n = ok (r_op mir.lshs n)
  build Opcode.slli n = ok (i_op mir.lshs n)
  build Opcode.srl n = ok (r_op mir.urshs n)
  build Opcode.srli n = ok (i_op mir.urshs n)
  build Opcode.sra n = ok (r_op mir.rshs n)
  build Opcode.srai n = ok (i_op mir.rshs n)
  build Opcode.sub n = ok (r_op mir.subs n)
  build Opcode.slt n = ok (r_op mir.lts n)
  build Opcode.sltu n = ok (r_op mir.ults n)
  build Opcode.slti n = ok (i_op mir.lts n)
  build Opcode.sltiu n = ok (i_op mir.ults n)
  build Opcode.beq n = ok (b_cond_op mir.beqs n)
  build Opcode.bne n = ok (b_cond_op mir.bnes n)
  build Opcode.blt n = ok (b_cond_op mir.blts n)
  build Opcode.bge n = ok (b_cond_op mir.bges n)
  build Opcode.bltu n = ok (b_cond_op mir.ublts n)
  build Opcode.bgeu n = ok (b_cond_op mir.ubges n)
  build Opcode.lw n = ok (l_op word u32 n)
  build Opcode.lh n = ok (l_op half i16 n)
  build Opcode.lb n = ok (l_op byte i8 n)
  build Opcode.lhu n = ok (l_op half u16 n)
  build Opcode.lbu n = ok (l_op byte u8 n)
  build Opcode.sw n = ok (s_op word u32 n)
  build Opcode.sh n = ok (s_op half i16 n)
  build Opcode.sb n = ok (s_op byte i8 n)
  build Opcode.jal n = ok (jal_op n)
  build Opcode.jalr n = ok (jalr_op n)
  build Opcode.lui n = ok (lui_op n)
  build Opcode.auipc n = ok (auipc_op n)
  build Opcode.ecall n = ok ecall_op
  build Opcode.fence n = ok ok
  build Opcode.ebreak n = ok ok
  build Opcode.pause n = ok ok
  build Opcode.sbreak n = ok ok
  build Opcode.scall n = ok ok
  build Opcode.num_opcodes n = fail Failure.invalid_argument

  unfoldable pub advance_pc : MirState M → MirState M
  advance_pc u = record u { pc_reg = mir.adds u.pc_reg word_size }

  -- What is appended before and after the loop: the count is added to as a `U32`.
  unfoldable pub enter : CpuState M → MirState M
  enter s = record { pc_reg = mir.load_u32 pc s; cpu = s }

  unfoldable pub leave : ℕ → MirState M → Outcome (CpuState M)
  leave size u =
      let s' = mir.store_u32 pc u.pc_reg u.cpu in
      let rd_reg = mir.load_u32 icount s' in ok (mir.store_u32 icount (mir.adds rd_reg size) s')

  unfoldable pub append_insns : List Instruction → Outcome (Code M)
  append_insns insns = do
    body ← emit_insns (λ n. build n.opcode n) advance_pc insns
    ok (λ s. body (enter s) >>= leave (length insns))

  -- `MIRJit::translate`, by what `MIR_gen` makes of the function
  abbrev pub mir_translator : (Code M → Outcome (Code M)) → Translator M
  mir_translator compile = library_translator append_insns compile
