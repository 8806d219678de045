-- ===== src/Tests/Examples.antt =====
-- The theorems at concrete inputs.
use jit_research.Base.{ℕ, suc, ◌≡◌, refl, true, some, Outcome, ok, fail}
use jit_research.Isa.Word
use jit_research.Isa.Opcode
use jit_research.Isa.Decode
use jit_research.Memory
use jit_research.CpuState
use jit_research.Interpreter
use jit_research.Interpreter.Handlers
use jit_research.Jit.Cache
use jit_research.Memory.{MemoryOps}
use jit_research.CpuState.{CpuState}
use jit_research.Engine
use jit_research.Engine.{run}
use jit_research.Jit
use jit_research.Jit.{JitState, Translator, Config}
use jit_research.Jit.Cache.{lookup-empty}
use jit_research.Jit.Runs.{step-run, round-IsSteps, fresh-IsCoherent}
use jit_research.Jit.Refines.{IsCoherent, IsSteps}
use jit_research.Tests.Machine.{rom, program, translator, translator-IsFaithful, hot, start, fresh}

abbrev or_else_value {ℓ} : {A : Type ℓ} → A → Outcome A → A
or_else_value d (ok a) = a
or_else_value d (fail f) = d

abbrev Result : Type 0
Result = JitState (Unit {0}) × CpuState (Unit {0})

unfoldable after_run : Result
after_run = or_else_value (fresh, start) (Jit.step rom 3 5 hot (some translator) start fresh)

fresh-program : IsCoherent rom program fresh
fresh-program = fresh-IsCoherent rom program fresh refl (λ addr. refl)

ran : Jit.step rom 3 5 hot (some translator) start fresh ≡ ok after_run
unfolding Jit.step after_run Jit.round Jit.cached_code Cache.lookup Cache.empty Cache.get_hash
    Cache.insert Jit.find_block Jit.collect Memory.read Decode.decode Decode.switch
    Opcode.is_terminator Decode.i_type Decode.system_type Decode.rs1_field Decode.rd_field
    Decode.i_imm Word.get_mask Word.ones Jit.run_block Jit.run_translated Jit.interpret_insns
    Interpreter.execute Interpreter.handler Handlers.do_addi Handlers.register_imm_op
    Handlers.do_ecall CpuState.get_reg CpuState.set_reg CpuState.set_pc CpuState.emulate_sys_call
    CpuState.get_sys_call_num CpuState.get_sys_call_arg CpuState.do_exit Opcode.changes_pc
ran = refl

step-run_example :
    (k : ℕ) × (run (Engine.step rom) (suc k) start ≡ ok after_run.1) × (after_run.1.finished ≡ true)
step-run_example =
    step-run rom program 3 5 hot (some translator) start fresh after_run translator-IsFaithful refl
      fresh-program ran

unfoldable after_round : Result
after_round = or_else_value (fresh, start) (Jit.round rom 5 hot (some translator) start fresh)

went_round : Jit.round rom 5 hot (some translator) start fresh ≡ ok after_round
unfolding after_round Jit.round Jit.cached_code Cache.lookup Cache.empty Cache.get_hash Cache.insert
    Jit.find_block Jit.collect Memory.read Decode.decode Decode.switch Opcode.is_terminator
    Decode.i_type Decode.system_type Decode.rs1_field Decode.rd_field Decode.i_imm Word.get_mask
    Word.ones Jit.run_block Jit.run_translated Jit.interpret_insns Interpreter.execute
    Interpreter.handler Handlers.do_addi Handlers.register_imm_op Handlers.do_ecall CpuState.get_reg
    CpuState.set_reg CpuState.set_pc CpuState.emulate_sys_call CpuState.get_sys_call_num
    CpuState.get_sys_call_arg CpuState.do_exit Opcode.changes_pc
went_round = refl

round-IsSteps_example : IsSteps rom program start after_round
round-IsSteps_example =
    round-IsSteps rom program 5 hot (some translator) start fresh after_round translator-IsFaithful
      refl fresh-program went_round
