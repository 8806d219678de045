-- ===== src/Engine.antt =====
-- `ExecEngine::step` of src/exec_engine/exec_engine.cc, which the interpreter runs, and
-- `Hart::run` of src/hart/include/prot/hart.hh over an engine's step.
pub mod Valid
use jit_research.Base.{
  ℕ, zero, suc, ◌+◌, ◌%◌, ◌^◌, true, false, Option, none, some, Outcome, ok, fail, Failure, ◌>>=◌,
  ◌>>◌, ◌==◌, if◌then◌else◌,
}
use jit_research.Isa.Word.{word_size}
use jit_research.Isa.Decode.{Instruction, decode}
use jit_research.Memory.{MemoryOps, read, word}
use jit_research.CpuState.{CpuState}
use jit_research.Interpreter.{execute}

-- `if (!instr.has_value()) throw`
abbrev pub decoded : ℕ → Option Instruction → Outcome Instruction
decoded bytes none = fail (Failure.undefined_instruction bytes)
decoded bytes (some n) = ok n

-- `++cpu.icount`, a `uintmax_t`
abbrev pub count_one : {M : Type 0} → CpuState M → CpuState M
count_one s = record s { icount = (s.icount + 1) % 2 ^ 64 }

module _ {M : Type 0} (mem : MemoryOps M) where
  unfoldable pub step : CpuState M → Outcome (CpuState M)
  step s = do
    if s.pc % word_size == 0 then ok tt else fail (Failure.misaligned_pc s.pc)
    bytes ← read mem word s.pc s.memory
    n ← decoded bytes (decode bytes)
    s' ← execute mem n s
    ok (count_one s')

-- `while (!m_cpu->finished) m_engine->step(*m_cpu)`, a round of fuel for each test of the loop.
unfoldable pub run :
    {M : Type 0} → (CpuState M → Outcome (CpuState M)) → ℕ → CpuState M → Outcome (CpuState M)
run engine_step zero s = fail Failure.out_of_fuel
run engine_step (suc fuel) s = elim s.finished [
  | true ↦ ok s
  | false ↦ engine_step s >>= run engine_step fuel
]
