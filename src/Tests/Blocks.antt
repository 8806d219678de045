-- ===== src/Tests/Blocks.antt =====
-- The theorems on blocks at the two-instruction program.
use jit_research.Base.{◌≡◌, refl, arith, List, [], ◌∷◌, false, true, Outcome, ok, fail}
use jit_research.Isa.Opcode
use jit_research.Isa.Opcode.{is_terminator}
use jit_research.Isa.Decode.{Instruction}
use jit_research.CpuState
use jit_research.CpuState.{CpuState}
use jit_research.Interpreter
use jit_research.Interpreter.Handlers
use jit_research.Engine
use jit_research.Engine.{run}
use jit_research.Jit
use jit_research.Jit.{collect, interpret_insns}
use jit_research.Jit.Blocks.{
  IsLine, last, next, IsBlock, end, more, steps, collect-IsLine, collect-IsBlock, interpret-steps,
}
use jit_research.Jit.Lines.{interpret-run}
use jit_research.Tests.Machine.{rom, program, hot, start, li, call}

abbrev block : List Instruction
block = li ∷ call ∷ []

li-goes_on : is_terminator Opcode.addi ≡ ok false
unfolding is_terminator
li-goes_on = refl

call-ends : is_terminator Opcode.ecall ≡ ok true
unfolding is_terminator
call-ends = refl

block-IsLine : IsLine rom program 0 block
block-IsLine = next tt refl li-goes_on (last tt refl)

block-IsBlock : IsBlock rom program 0 block
block-IsBlock = more tt li-goes_on (end tt call-ends)

collect-IsBlock_example : collect rom 2 hot 0 tt ≡ ok block
collect-IsBlock_example =
    collect-IsBlock rom program 2 hot 0 start block refl refl block-IsBlock (omega arith)

collected : collect rom 2 hot 0 tt ≡ ok block
collected = collect-IsBlock rom program 2 hot 0 start block refl refl block-IsBlock (omega arith)

collect-IsLine_example : IsLine rom program 0 block
collect-IsLine_example = collect-IsLine rom program 2 hot 0 start block refl tt collected

interpret-steps_example : interpret_insns rom block start ≡ steps rom 2 start
interpret-steps_example = interpret-steps rom program block start refl block-IsLine

abbrev value : {A : Type 0} → A → Outcome A → A
value d (ok a) = a
value d (fail f) = d

unfoldable after_block : CpuState (Unit {0})
after_block = value start (interpret_insns rom block start)

interpreted : interpret_insns rom block start ≡ ok after_block
unfolding after_block Jit.interpret_insns Interpreter.execute Interpreter.handler Handlers.do_addi
    Handlers.register_imm_op Handlers.do_ecall CpuState.get_reg CpuState.set_reg CpuState.set_pc
    CpuState.emulate_sys_call CpuState.get_sys_call_num CpuState.get_sys_call_arg CpuState.do_exit
    Opcode.changes_pc
interpreted = refl

interpret-run_example : run (Engine.step rom) 3 start ≡ run (Engine.step rom) 1 after_block
interpret-run_example =
    interpret-run rom program 1 block start after_block refl refl block-IsLine interpreted
