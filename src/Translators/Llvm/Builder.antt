-- ===== src/Translators/Llvm/Builder.antt =====
-- `ll::translate` of src/jit/llvm/builder/builder.cc. A function `XbuildIR` of the source is here what
-- running the IR does that it builds.
use jit_research.Base.{ℕ, Outcome, ok, fail, Failure, ◌>>=◌, ◌==◌, if◌then◌else◌}
use jit_research.Isa.Opcode.{Opcode}
use jit_research.Isa.Decode.{Instruction}
use jit_research.Memory.{MemoryOps, Width, byte, half, word, read, write}
use jit_research.CpuState.{CpuState, emulate_sys_call}
use jit_research.Jit.Cache.{Code}
use jit_research.Translators.Llvm.{
  Llvm, IntType, i1, i8, i16, i32, Ptr, cpu_state_type, member, element,
}

-- The type that an external function takes or returns for an access.
abbrev pub int_type : Width → IntType
int_type byte = i8
int_type half = i16
int_type word = i32

module _ {M : Type 0} (mem : MemoryOps M) where
  -- `doLoad<T>`, `doStore<T>` and `doSyscall`
  unfoldable pub do_load : Width → ℕ → CpuState M → Outcome ℕ
  do_load width addr s = read mem width addr s.memory

  unfoldable pub do_store : Width → ℕ → ℕ → CpuState M → Outcome (CpuState M)
  do_store width addr val s = do m ← write mem width addr val s.memory; ok (record s { memory = m })

  unfoldable pub do_syscall : CpuState M → Outcome (CpuState M)
  do_syscall s = emulate_sys_call s

module _ {M : Type 0} (mem : MemoryOps M) (b : Llvm M) where
  open b use {
    create_add, create_sub, create_and, create_or, create_xor, create_shl, create_lshr, create_ashr,
    create_icmp_eq, create_icmp_ne, create_icmp_slt, create_icmp_sge, create_icmp_ult,
    create_icmp_uge, create_select, create_zext, create_sext, create_load, create_store,
  }

  -- `getReg`, and the pointers to registers that the other functions make in the same way
  abbrev pub reg_ptr : ℕ → Ptr
  reg_ptr idx = element cpu_state_type 0 idx

  abbrev pub reg_val : ℕ → CpuState M → ℕ
  reg_val idx s = create_load i32 (reg_ptr idx) s

  -- `if (rd != 0) Data.CreateStore(result, rdPtr)`
  unfoldable pub store_rd : ℕ → ℕ → CpuState M → CpuState M
  store_rd rd result s = if rd == 0 then s else create_store i32 result (reg_ptr rd) s

  -- What the functions have in common that work on two registers, on a register and an immediate, and
  -- that branch.
  unfoldable pub reg_build : (ℕ → ℕ → ℕ) → Instruction → Code M
  reg_build op n s = ok (store_rd n.rd (op (reg_val n.rs1 s) (reg_val n.rs2 s)) s)

  unfoldable pub imm_build : (ℕ → ℕ → ℕ) → Instruction → Code M
  imm_build op n s = ok (store_rd n.rd (op (reg_val n.rs1 s) n.imm) s)

  unfoldable pub branch_build : (ℕ → ℕ → ℕ) → Instruction → Code M
  branch_build icmp n s =
      let pc_val = create_load i32 (member cpu_state_type 1) s in
      let cond = icmp (reg_val n.rs1 s) (reg_val n.rs2 s) in
      let pc_next = create_select cond (create_add i32 pc_val n.imm) (create_add i32 pc_val 4) in
      ok (create_store i32 pc_next (member cpu_state_type 1) s)

  -- `generateLoad` and `generateStore`; the opcode is looked at when the IR is built.
  unfoldable pub load_build : Width → (ℕ → ℕ) → Instruction → Code M
  load_build width extend n s = do
    loaded ← do_load mem width (create_add i32 (reg_val n.rs1 s) n.imm) s
    ok (store_rd n.rd (extend loaded) s)

  unfoldable pub generate_load : Opcode → Instruction → Outcome (Code M)
  unfolding load_build
  generate_load Opcode.lb n = ok (load_build byte (create_sext i8) n)
  generate_load Opcode.lbu n = ok (load_build byte (create_zext i8) n)
  generate_load Opcode.lh n = ok (load_build half (create_sext i16) n)
  generate_load Opcode.lhu n = ok (load_build half (create_zext i16) n)
  generate_load Opcode.lw n = ok (load_build word (create_zext i32) n)
  generate_load op n = fail Failure.invalid_argument

  unfoldable pub store_build : Width → Instruction → Code M
  store_build width n s =
      do_store mem width (create_add i32 (reg_val n.rs1 s) n.imm)
        (create_load (int_type width) (reg_ptr n.rs2) s) s

  unfoldable pub generate_store : Opcode → Instruction → Outcome (Code M)
  unfolding store_build
  generate_store Opcode.sb n = ok (store_build byte n)
  generate_store Opcode.sh n = ok (store_build half n)
  generate_store Opcode.sw n = ok (store_build word n)
  generate_store op n = fail Failure.invalid_argument

  -- `advancePC`
  unfoldable pub advance_pc : CpuState M → CpuState M
  advance_pc s =
      create_store i32 (create_add i32 (create_load i32 (member cpu_state_type 1) s) 4)
        (member cpu_state_type 1) s

  unfoldable pub lui_build_ir : Instruction → Code M
  lui_build_ir n s = ok (store_rd n.rd n.imm s)

  unfoldable pub auipc_build_ir : Instruction → Code M
  auipc_build_ir n s =
      ok (store_rd n.rd (create_add i32 n.imm (create_load i32 (member cpu_state_type 1) s)) s)

  unfoldable pub jal_build_ir : Instruction → Code M
  jal_build_ir n s =
      let pc_val = create_load i32 (member cpu_state_type 1) s in
      let s' = create_store i32 (create_add i32 n.imm pc_val) (member cpu_state_type 1) s in
      ok (store_rd n.rd (create_add i32 4 pc_val) s')

  unfoldable pub jalr_build_ir : Instruction → Code M
  jalr_build_ir n s =
      let rs1_val = reg_val n.rs1 s in
      let pc_val = create_load i32 (member cpu_state_type 1) s in
      let s' = store_rd n.rd (create_add i32 pc_val 4) s in
      let target_aligned = create_and (create_add i32 rs1_val n.imm) 0xfffffffe in
      ok (create_store i32 target_aligned (member cpu_state_type 1) s')

  unfoldable pub add_build_ir : Instruction → Code M
  unfolding reg_build
  add_build_ir n s = reg_build (create_add i32) n s

  unfoldable pub sub_build_ir : Instruction → Code M
  unfolding reg_build
  sub_build_ir n s = reg_build create_sub n s

  unfoldable pub and_build_ir : Instruction → Code M
  unfolding reg_build
  and_build_ir n s = reg_build create_and n s

  unfoldable pub or_build_ir : Instruction → Code M
  unfolding reg_build
  or_build_ir n s = reg_build create_or n s

  unfoldable pub xor_build_ir : Instruction → Code M
  unfolding reg_build
  xor_build_ir n s = reg_build create_xor n s

  unfoldable pub sll_build_ir : Instruction → Code M
  unfolding reg_build
  sll_build_ir n s = reg_build create_shl n s

  unfoldable pub srl_build_ir : Instruction → Code M
  unfolding reg_build
  srl_build_ir n s = reg_build create_lshr n s

  unfoldable pub sra_build_ir : Instruction → Code M
  unfolding reg_build
  sra_build_ir n s = reg_build create_ashr n s

  unfoldable pub addi_build_ir : Instruction → Code M
  unfolding imm_build
  addi_build_ir n s = imm_build (create_add i32) n s

  unfoldable pub xori_build_ir : Instruction → Code M
  unfolding imm_build
  xori_build_ir n s = imm_build create_xor n s

  unfoldable pub ori_build_ir : Instruction → Code M
  unfolding imm_build
  ori_build_ir n s = imm_build create_or n s

  unfoldable pub andi_build_ir : Instruction → Code M
  unfolding imm_build
  andi_build_ir n s = imm_build create_and n s

  unfoldable pub slli_build_ir : Instruction → Code M
  unfolding imm_build
  slli_build_ir n s = imm_build create_shl n s

  unfoldable pub srli_build_ir : Instruction → Code M
  unfolding imm_build
  srli_build_ir n s = imm_build create_lshr n s

  unfoldable pub srai_build_ir : Instruction → Code M
  unfolding imm_build
  srai_build_ir n s = imm_build create_ashr n s

  unfoldable pub slt_build_ir : Instruction → Code M
  unfolding reg_build
  slt_build_ir n s = reg_build (λ x y. create_zext i1 (create_icmp_slt x y)) n s

  unfoldable pub sltu_build_ir : Instruction → Code M
  unfolding reg_build
  sltu_build_ir n s = reg_build (λ x y. create_zext i1 (create_icmp_ult x y)) n s

  unfoldable pub slti_build_ir : Instruction → Code M
  unfolding imm_build
  slti_build_ir n s = imm_build (λ x y. create_zext i1 (create_icmp_slt x y)) n s

  unfoldable pub sltiu_build_ir : Instruction → Code M
  unfolding imm_build
  sltiu_build_ir n s = imm_build (λ x y. create_zext i1 (create_icmp_ult x y)) n s

  unfoldable pub beq_build_ir : Instruction → Code M
  unfolding branch_build
  beq_build_ir n s = branch_build create_icmp_eq n s

  unfoldable pub bne_build_ir : Instruction → Code M
  unfolding branch_build
  bne_build_ir n s = branch_build create_icmp_ne n s

  unfoldable pub blt_build_ir : Instruction → Code M
  unfolding branch_build
  blt_build_ir n s = branch_build create_icmp_slt n s

  unfoldable pub bge_build_ir : Instruction → Code M
  unfolding branch_build
  bge_build_ir n s = branch_build create_icmp_sge n s

  unfoldable pub bltu_build_ir : Instruction → Code M
  unfolding branch_build
  bltu_build_ir n s = branch_build create_icmp_ult n s

  unfoldable pub bgeu_build_ir : Instruction → Code M
  unfolding branch_build
  bgeu_build_ir n s = branch_build create_icmp_uge n s
