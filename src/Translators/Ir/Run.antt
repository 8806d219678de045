-- ===== src/Translators/Ir/Run.antt =====
-- `IRJit` of src/jit/ir/ir.cc. A macro and a case of `run` is here what running the IR does that it
-- builds, on the value that `pc` names and the CPU state.
use jit_research.Base.{ℕ, List, length, Outcome, ok, fail, Failure, ◌>>=◌, ◌==◌, if◌then◌else◌}
use jit_research.Isa.Word.{word_size}
use jit_research.Isa.Opcode.{Opcode}
use jit_research.Isa.Decode.{Instruction}
use jit_research.Memory.{MemoryOps, Width, byte, half, word}
use jit_research.CpuState.{CpuState}
use jit_research.Jit.{Translator}
use jit_research.Jit.Cache.{Code}
use jit_research.Translators.Access.{reg, pc, icount, load_helper, store_helper, syscall_helper}
use jit_research.Translators.Emit.{emit_insns}
use jit_research.Translators.Faithful.{library_translator}
use jit_research.Translators.Ir.{Ir}

-- The value of `pc`, which is stored only at the end of the block, and the CPU state.
pub record IrState (M : Type 0) : Type 0 where
  pub pc_ref : ℕ
  pub cpu : CpuState M

module _ {M : Type 0} (mem : MemoryOps M) (b : Ir M) where
  abbrev IrCode : Type 0
  IrCode = IrState M → Outcome (IrState M)

  -- `loadReg` and `setDst`
  abbrev pub load_reg : ℕ → CpuState M → ℕ
  load_reg idx s = if idx == 0 then 0 else b.load_u32 (reg idx) s

  abbrev pub set_dst : ℕ → ℕ → CpuState M → CpuState M
  set_dst rd val s = if rd == 0 then s else b.store_u32 (reg rd) val s

  -- `PROT_IR_R_OP` and `PROT_IR_I_OP`, which `PROT_IR_ALU_OP` and `PROT_IR_SHIFT_OP` expand to
  unfoldable pub r_op : (ℕ → ℕ → ℕ) → Instruction → IrCode
  r_op op n u =
      ok (record u { cpu = set_dst n.rd (op (load_reg n.rs1 u.cpu) (load_reg n.rs2 u.cpu)) u.cpu })

  unfoldable pub i_op : (ℕ → ℕ → ℕ) → Instruction → IrCode
  i_op op n u = ok (record u { cpu = set_dst n.rd (op (load_reg n.rs1 u.cpu) n.imm) u.cpu })

  -- `PROT_IR_COMP_R_OP` and `PROT_IR_COMP_I_OP`
  unfoldable pub comp_r_op : (ℕ → ℕ → ℕ) → Instruction → IrCode
  comp_r_op op n u =
      let val = b.zext_u32 (op (load_reg n.rs1 u.cpu) (load_reg n.rs2 u.cpu)) in
      ok (record u { cpu = set_dst n.rd val u.cpu })

  unfoldable pub comp_i_op : (ℕ → ℕ → ℕ) → Instruction → IrCode
  comp_i_op op n u =
      ok (record u { cpu = set_dst n.rd (b.zext_u32 (op (load_reg n.rs1 u.cpu) n.imm)) u.cpu })

  -- `PROT_IR_B_COND_OP`
  unfoldable pub b_cond_op : (ℕ → ℕ → ℕ) → Instruction → IrCode
  b_cond_op cond n u =
      let taken = cond (load_reg n.rs1 u.cpu) (load_reg n.rs2 u.cpu) in
      ok (record u {
        pc_ref = b.cond_u32 taken (b.add_u32 u.pc_ref n.imm) (b.add_u32 u.pc_ref word_size);
      })

  -- `PROT_IR_STORE_OP` and `PROT_IR_LOAD_OP`
  unfoldable pub store_op : Width → Instruction → IrCode
  store_op width n u = do
    s ←
        store_helper mem width (b.add_u32 (load_reg n.rs1 u.cpu) n.imm)
          (b.trunc width (load_reg n.rs2 u.cpu)) u.cpu
    ok (record u { cpu = s })

  unfoldable pub load_op : Width → (ℕ → ℕ) → Instruction → IrCode
  load_op width extend n u = do
    loaded ← load_helper mem width (b.add_u32 (load_reg n.rs1 u.cpu) n.imm) u.cpu
    ok (record u { cpu = set_dst n.rd (extend loaded) u.cpu })

  -- The other cases
  unfoldable pub jal_op : Instruction → IrCode
  jal_op n u = ok (record u {
    cpu = set_dst n.rd (b.add_u32 u.pc_ref word_size) u.cpu;
    pc_ref = b.add_u32 u.pc_ref n.imm;
  })

  unfoldable pub jalr_op : Instruction → IrCode
  jalr_op n u =
      let s' = set_dst n.rd (b.add_u32 u.pc_ref word_size) u.cpu in
      let target = b.add_u32 (load_reg n.rs1 s') n.imm in
      ok (record u { cpu = s'; pc_ref = b.and_u32 target 0xfffffffe })

  unfoldable pub lui_op : Instruction → IrCode
  lui_op n u = ok (record u { cpu = set_dst n.rd n.imm u.cpu })

  unfoldable pub auipc_op : Instruction → IrCode
  auipc_op n u = ok (record u { cpu = set_dst n.rd (b.add_u32 u.pc_ref n.imm) u.cpu })

  unfoldable pub ecall_op : IrCode
  ecall_op u = do s ← syscall_helper mem u.cpu; ok (record u { cpu = s })

  -- The `switch` of `run`
  unfoldable pub build : Opcode → Instruction → Outcome IrCode
  build Opcode.add n = ok (r_op b.add_u32 n)
  build Opcode.addi n = ok (i_op b.add_u32 n)
  build Opcode.and n = ok (r_op b.and_u32 n)
  build Opcode.andi n = ok (i_op b.and_u32 n)
  build Opcode.or n = ok (r_op b.or_u32 n)
  build Opcode.ori n = ok (i_op b.or_u32 n)
  build Opcode.xor n = ok (r_op b.xor_u32 n)
  build Opcode.xori n = ok (i_op b.xor_u32 n)
  build Opcode.sub n = ok (r_op b.sub_u32 n)
  build Opcode.sll n = ok (r_op b.shl_u32 n)
  build Opcode.slli n = ok (i_op b.shl_u32 n)
  build Opcode.srl n = ok (r_op b.shr_u32 n)
  build Opcode.srli n = ok (i_op b.shr_u32 n)
  build Opcode.sra n = ok (r_op b.sar_u32 n)
  build Opcode.srai n = ok (i_op b.sar_u32 n)
  build Opcode.slt n = ok (comp_r_op b.lt n)
  build Opcode.sltu n = ok (comp_r_op b.ult n)
  build Opcode.slti n = ok (comp_i_op b.lt n)
  build Opcode.sltiu n = ok (comp_i_op b.ult n)
  build Opcode.beq n = ok (b_cond_op b.eq n)
  build Opcode.bne n = ok (b_cond_op b.ne n)
  build Opcode.blt n = ok (b_cond_op b.lt n)
  build Opcode.bge n = ok (b_cond_op b.ge n)
  build Opcode.bltu n = ok (b_cond_op b.ult n)
  build Opcode.bgeu n = ok (b_cond_op b.uge n)
  build Opcode.lb n = ok (load_op byte (b.sext_u32 byte) n)
  build Opcode.lh n = ok (load_op half (b.sext_u32 half) n)
  build Opcode.lw n = ok (load_op word (b.sext_u32 word) n)
  build Opcode.lbu n = ok (load_op byte b.zext_u32 n)
  build Opcode.lhu n = ok (load_op half b.zext_u32 n)
  build Opcode.sb n = ok (store_op byte n)
  build Opcode.sh n = ok (store_op half n)
  build Opcode.sw n = ok (store_op word n)
  build Opcode.jal n = ok (jal_op n)
  build Opcode.jalr n = ok (jalr_op n)
  build Opcode.lui n = ok (lui_op n)
  build Opcode.auipc n = ok (auipc_op n)
  build Opcode.ecall n = ok ecall_op
  build Opcode.fence n = ok ok
  build Opcode.ebreak n = ok ok
  build Opcode.pause n = ok ok
  build Opcode.sbreak n = ok ok
  build Opcode.scall n = ok ok
  build Opcode.num_opcodes n = fail Failure.invalid_argument

  unfoldable pub advance_pc : IrState M → IrState M
  advance_pc u = record u { pc_ref = b.add_u32 u.pc_ref word_size }

  -- What `run` emits before and after the loop
  unfoldable pub enter : CpuState M → IrState M
  enter s = record { pc_ref = b.load_u32 pc s; cpu = s }

  unfoldable pub leave : ℕ → IrState M → Outcome (CpuState M)
  leave size u =
      let s' = b.store_u32 pc u.pc_ref u.cpu in
      ok (b.store_u64 icount (b.add_u64 (b.load_u64 icount s') size) s')

  unfoldable pub run : List Instruction → Outcome (Code M)
  run insns = do
    body ← emit_insns (λ n. build n.opcode n) advance_pc insns
    ok (λ s. body (enter s) >>= leave (length insns))

  -- `IRJit::translate`: `ir_jit_compile` may fail, and then it throws.
  abbrev pub ir_translator : (Code M → Outcome (Code M)) → Translator M
  ir_translator compile = library_translator run compile
