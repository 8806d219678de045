-- ===== src/Translators/Llvm/Translate.antt =====
-- `InsnIRBuilder::build` and `ll::translate` of src/jit/llvm/builder/builder.cc, the table of external
-- functions, and the translator of src/jit/llvm/jit/llvmbasedjit.cc.
use jit_research.Base.{ℕ, List, length, Outcome, ok, fail, Failure, ◌>>=◌}
use jit_research.Isa.Opcode.{Opcode}
use jit_research.Isa.Decode.{Instruction}
use jit_research.Memory.{MemoryOps}
use jit_research.Jit.{Translator}
use jit_research.Jit.Cache.{Code}
use jit_research.Translators.Emit.{emit_insns}
use jit_research.Translators.Faithful.{library_translator}
use jit_research.Translators.Llvm.{Llvm, i64, cpu_state_type, member}
use jit_research.Translators.Llvm.Builder.{
  do_syscall, generate_load, generate_store, advance_pc, lui_build_ir, auipc_build_ir, jal_build_ir,
  jalr_build_ir, beq_build_ir, bne_build_ir, blt_build_ir, bge_build_ir, bltu_build_ir,
  bgeu_build_ir, addi_build_ir, slti_build_ir, sltiu_build_ir, xori_build_ir, ori_build_ir,
  andi_build_ir, slli_build_ir, srli_build_ir, srai_build_ir, add_build_ir, sub_build_ir,
  sll_build_ir, slt_build_ir, sltu_build_ir, xor_build_ir, srl_build_ir, sra_build_ir, or_build_ir,
  and_build_ir,
}

module _ {M : Type 0} (mem : MemoryOps M) (b : Llvm M) where
  open b use {create_add, create_load, create_store}

  -- The `switch` of `build`: an opcode that it lacks fails an assertion.
  unfoldable pub build_opcode : Opcode → Instruction → Outcome (Code M)
  build_opcode Opcode.lui n = ok (lui_build_ir mem b n)
  build_opcode Opcode.auipc n = ok (auipc_build_ir mem b n)
  build_opcode Opcode.jal n = ok (jal_build_ir mem b n)
  build_opcode Opcode.jalr n = ok (jalr_build_ir mem b n)
  build_opcode Opcode.beq n = ok (beq_build_ir mem b n)
  build_opcode Opcode.bne n = ok (bne_build_ir mem b n)
  build_opcode Opcode.blt n = ok (blt_build_ir mem b n)
  build_opcode Opcode.bge n = ok (bge_build_ir mem b n)
  build_opcode Opcode.bltu n = ok (bltu_build_ir mem b n)
  build_opcode Opcode.bgeu n = ok (bgeu_build_ir mem b n)
  build_opcode Opcode.addi n = ok (addi_build_ir mem b n)
  build_opcode Opcode.slti n = ok (slti_build_ir mem b n)
  build_opcode Opcode.sltiu n = ok (sltiu_build_ir mem b n)
  build_opcode Opcode.xori n = ok (xori_build_ir mem b n)
  build_opcode Opcode.ori n = ok (ori_build_ir mem b n)
  build_opcode Opcode.andi n = ok (andi_build_ir mem b n)
  build_opcode Opcode.slli n = ok (slli_build_ir mem b n)
  build_opcode Opcode.srli n = ok (srli_build_ir mem b n)
  build_opcode Opcode.srai n = ok (srai_build_ir mem b n)
  build_opcode Opcode.add n = ok (add_build_ir mem b n)
  build_opcode Opcode.sub n = ok (sub_build_ir mem b n)
  build_opcode Opcode.sll n = ok (sll_build_ir mem b n)
  build_opcode Opcode.slt n = ok (slt_build_ir mem b n)
  build_opcode Opcode.sltu n = ok (sltu_build_ir mem b n)
  build_opcode Opcode.xor n = ok (xor_build_ir mem b n)
  build_opcode Opcode.srl n = ok (srl_build_ir mem b n)
  build_opcode Opcode.sra n = ok (sra_build_ir mem b n)
  build_opcode Opcode.or n = ok (or_build_ir mem b n)
  build_opcode Opcode.and n = ok (and_build_ir mem b n)
  build_opcode Opcode.lb n = generate_load mem b Opcode.lb n
  build_opcode Opcode.lh n = generate_load mem b Opcode.lh n
  build_opcode Opcode.lw n = generate_load mem b Opcode.lw n
  build_opcode Opcode.lbu n = generate_load mem b Opcode.lbu n
  build_opcode Opcode.lhu n = generate_load mem b Opcode.lhu n
  build_opcode Opcode.sb n = generate_store mem b Opcode.sb n
  build_opcode Opcode.sh n = generate_store mem b Opcode.sh n
  build_opcode Opcode.sw n = generate_store mem b Opcode.sw n
  build_opcode Opcode.fence n = ok ok
  build_opcode Opcode.pause n = ok ok
  build_opcode Opcode.ebreak n = ok ok
  build_opcode Opcode.ecall n = ok (do_syscall mem)
  build_opcode Opcode.sbreak n = fail Failure.undefined_behaviour
  build_opcode Opcode.scall n = fail Failure.undefined_behaviour
  build_opcode Opcode.num_opcodes n = fail Failure.undefined_behaviour

  unfoldable pub build : Instruction → Outcome (Code M)
  build n = build_opcode n.opcode n

  -- The loop of `translate`.
  abbrev pub build_insns : List Instruction → Outcome (Code M)
  build_insns ns = emit_insns build (advance_pc mem b) ns

  -- What follows it: the count of instructions.
  unfoldable pub add_icount : ℕ → Code M
  add_icount size s = ok (
      create_store i64 (create_add i64 (create_load i64 (member cpu_state_type 4) s) size)
        (member cpu_state_type 4) s)

  -- `ll::translate`
  unfoldable pub translate : List Instruction → Outcome (Code M)
  translate insns = do body ← build_insns insns; ok (λ s. body s >>= add_icount (length insns))

  -- `LLVMBasedJIT` and `TPDEJit` of src/jit/tpde/tpde.cc, by what the library makes of a module: `compile` may throw, and
  -- otherwise gives code that does what the module's function does.
  abbrev pub llvm_translator : (Code M → Outcome (Code M)) → Translator M
  llvm_translator compile = library_translator translate compile

  abbrev pub tpde_translator : (Code M → Outcome (Code M)) → Translator M
  tpde_translator compile = llvm_translator compile
