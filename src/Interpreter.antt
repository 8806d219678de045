-- ===== src/Interpreter.antt =====
-- The interpreter of src/interpreter/interp.cc: the table of handlers, and `execute`.
pub mod Handlers
pub mod Accesses
pub mod Valid
pub mod Frame
pub mod Counted
pub mod Counter
pub mod Shifts
use jit_research.Base.{
  ℕ, ◌+◌, ◌*◌, ◌/◌, ◌%◌, ◌^◌, Bool, true, false, not, bit_and, bit_or, bit_xor, Outcome, ok, fail,
  Failure, ◌>>=◌, ◌==◌, ltb, leb, if◌then◌else◌,
}
use jit_research.Isa.Word.{plus, minus, word_size, to_word, slice, signed_less, sar, sign_extend}
use jit_research.Isa.Opcode
use jit_research.Isa.Opcode.{Opcode, changes_pc}
use jit_research.Isa.Decode.{Instruction}
use jit_research.Memory.{Width, byte, half, word, size_of, width_mod, MemoryOps, read, write}
use jit_research.CpuState.{CpuState, get_reg, set_reg, set_pc, emulate_sys_call}
use Handlers.{
  do_add, do_addi, do_and, do_andi, do_auipc, do_beq, do_bge, do_bgeu, do_blt, do_bltu, do_bne,
  do_ebreak, do_ecall, do_fence, do_jal, do_jalr, do_lui, do_or, do_ori, do_pause, do_sbreak,
  do_scall, do_sll, do_slli, do_slt, do_slti, do_sltiu, do_sltu, do_sra, do_srai, do_srl, do_srli,
  do_sub, do_xor, do_xori,
}
use Accesses.{do_lb, do_lbu, do_lh, do_lhu, do_lw, do_sb, do_sh, do_sw}

module _ {M : Type 0} (mem : MemoryOps M) where
  -- `ExecHandlersMap::get`, applied: an opcode beyond the table fails an assertion.
  unfoldable pub handler : Opcode → Instruction → CpuState M → Outcome (CpuState M)
  handler Opcode.add n s = do_add n s
  handler Opcode.addi n s = do_addi n s
  handler Opcode.and n s = do_and n s
  handler Opcode.andi n s = do_andi n s
  handler Opcode.auipc n s = do_auipc n s
  handler Opcode.beq n s = do_beq n s
  handler Opcode.bge n s = do_bge n s
  handler Opcode.bgeu n s = do_bgeu n s
  handler Opcode.blt n s = do_blt n s
  handler Opcode.bltu n s = do_bltu n s
  handler Opcode.bne n s = do_bne n s
  handler Opcode.ebreak n s = do_ebreak n s
  handler Opcode.ecall n s = do_ecall n s
  handler Opcode.fence n s = do_fence n s
  handler Opcode.jal n s = do_jal n s
  handler Opcode.jalr n s = do_jalr n s
  handler Opcode.lb n s = do_lb mem n s
  handler Opcode.lbu n s = do_lbu mem n s
  handler Opcode.lh n s = do_lh mem n s
  handler Opcode.lhu n s = do_lhu mem n s
  handler Opcode.lui n s = do_lui n s
  handler Opcode.lw n s = do_lw mem n s
  handler Opcode.or n s = do_or n s
  handler Opcode.ori n s = do_ori n s
  handler Opcode.pause n s = do_pause n s
  handler Opcode.sb n s = do_sb mem n s
  handler Opcode.sbreak n s = do_sbreak n s
  handler Opcode.scall n s = do_scall n s
  handler Opcode.sh n s = do_sh mem n s
  handler Opcode.sll n s = do_sll n s
  handler Opcode.slli n s = do_slli n s
  handler Opcode.slt n s = do_slt n s
  handler Opcode.slti n s = do_slti n s
  handler Opcode.sltiu n s = do_sltiu n s
  handler Opcode.sltu n s = do_sltu n s
  handler Opcode.sra n s = do_sra n s
  handler Opcode.srai n s = do_srai n s
  handler Opcode.srl n s = do_srl n s
  handler Opcode.srli n s = do_srli n s
  handler Opcode.sub n s = do_sub n s
  handler Opcode.sw n s = do_sw mem n s
  handler Opcode.xor n s = do_xor n s
  handler Opcode.xori n s = do_xori n s
  handler Opcode.num_opcodes n s = fail Failure.undefined_behaviour

  -- `Interpreter::execute`
  unfoldable pub execute : Instruction → CpuState M → Outcome (CpuState M)
  execute n s = do
    s' ← handler n.opcode n s
    jumped ← changes_pc n.opcode
    ok (if jumped then s' else set_pc (plus s.pc word_size) s')
