-- ===== src/Tests/Boot.antt =====
-- Runs of the interpreter on a plain memory, from a file and from a loaded memory, that end.
use jit_research.Base.{ℕ, ◌≡◌, refl, arith, List, [], ◌∷◌, ok, ◌>>=◌, Ensures}
use jit_research.Isa.Word
use jit_research.Isa.Opcode
use jit_research.Isa.Decode
use jit_research.Memory
use jit_research.Memory.Bytes
use jit_research.Memory.Bytes.{store, store-IsBytes, IsBytes, AllBytes}
use jit_research.Memory.Plain
use jit_research.Memory.Plain.{PlainMemory, plain_ops}
use jit_research.Memory.Plain.Laws.{plain-KeepsWidths}
use jit_research.CpuState
use jit_research.CpuState.{new, set_pc}
use jit_research.CpuState.Valid.{new-IsValid, set_pc-IsValid}
use jit_research.Interpreter
use jit_research.Interpreter.Handlers
use jit_research.Interpreter.Valid.{IsSound}
use jit_research.Engine
use jit_research.Engine.{run}
use jit_research.Engine.Valid.{run-IsSound}
use jit_research.Loader
use jit_research.Loader.{Constants, Elf}
use jit_research.Hart
use jit_research.Hart.Boot.{simulate, simulate-IsSound}

abbrev ram : PlainMemory
ram = record { size = 64; start = 16; cell = λ i. 0 }

ram-IsBytes : IsBytes ram.cell
ram-IsBytes i = omega arith

abbrev names : Constants
names = record { et_exec = 2; elfdata2lsb = 1; elfclass32 = 1; em_riscv = 243; pt_load = 1 }

-- A file with `li a7, 93` and `ecall`, which ends the run.
abbrev exit_bytes : List ℕ
exit_bytes = 0x93 ∷ 0x08 ∷ 0xd0 ∷ 0x05 ∷ 0x73 ∷ 0 ∷ 0 ∷ 0 ∷ []

exit-AllBytes : AllBytes exit_bytes
exit-AllBytes = (
  omega arith,
  (
    omega arith,
    (omega arith, (omega arith, (omega arith, (omega arith, (omega arith, (omega arith, tt)))))),
  ),
)

abbrev exit_file : Elf
exit_file = record {
  get_type = 2;
  get_encoding = 1;
  get_class = 1;
  get_machine = 243;
  get_entry = 20;
  segments =
      record { get_type = 1; get_data = exit_bytes; get_virtual_address = 20; get_memory_size = 8 }
      ∷ [];
}

simulate-IsSound_example :
    Ensures
      (IsSound (λ m. IsBytes m.cell))
      (simulate plain_ops (Engine.step plain_ops) names exit_file 64 10 ram)
simulate-IsSound_example =
    simulate-IsSound names exit_file 64 10 ram (omega arith) (exit-AllBytes, tt) ram-IsBytes

-- Its run ends, after two instructions.
simulate-exit_file :
    (simulate plain_ops (Engine.step plain_ops) names exit_file 64 10 ram >>= λ s. ok s.icount)
    ≡ ok 2
unfolding simulate Hart.load Loader.load_memory Loader.load_segments Loader.load_segment
    Loader.get_entry_point Hart.make_hart Hart.set_sp Plain.write_block run Engine.step Memory.read
    Plain.read_n Plain.translate_addr Bytes.load Bytes.store Bytes.from_bytes Decode.decode
    Decode.switch Decode.i_type Decode.system_type Decode.rs1_field Decode.rd_field Decode.i_imm
    Word.get_mask Word.ones Interpreter.execute Handlers.do_addi Handlers.register_imm_op
    Handlers.do_ecall CpuState.new CpuState.get_reg CpuState.set_reg CpuState.set_pc
    CpuState.emulate_sys_call CpuState.get_sys_call_num CpuState.get_sys_call_arg CpuState.do_exit
    Opcode.changes_pc Interpreter.handler Memory.fill_from Memory.fill_block
simulate-exit_file = refl

-- The memory with the file, and a state at its entry.
abbrev exit_ram : PlainMemory
exit_ram = record ram { cell = store ram.cell 4 exit_bytes }

exit_ram-IsBytes : IsBytes exit_ram.cell
exit_ram-IsBytes = store-IsBytes ram.cell 4 exit_bytes ram-IsBytes exit-AllBytes

run-IsSound_example :
    Ensures
      (IsSound (λ m. IsBytes m.cell))
      (run (Engine.step plain_ops) 3 (set_pc 20 (new exit_ram)))
unfolding new set_pc
run-IsSound_example =
    run-IsSound (λ m. IsBytes m.cell) plain_ops plain-KeepsWidths 3 (set_pc 20 (new exit_ram))
      (set_pc-IsValid 20 (new exit_ram) (omega arith) (new-IsValid exit_ram), exit_ram-IsBytes)

run-exit_ram :
    (run (Engine.step plain_ops) 3 (set_pc 20 (new exit_ram)) >>= λ s. ok s.icount) ≡ ok 2
unfolding run Engine.step Memory.read Plain.read_n Plain.translate_addr Bytes.load Bytes.store
    Bytes.from_bytes Decode.decode Decode.switch Decode.i_type Decode.system_type Decode.rs1_field
    Decode.rd_field Decode.i_imm Word.get_mask Word.ones Interpreter.execute Handlers.do_addi
    Handlers.register_imm_op Handlers.do_ecall CpuState.new CpuState.get_reg CpuState.set_reg
    CpuState.set_pc CpuState.emulate_sys_call CpuState.get_sys_call_num CpuState.get_sys_call_arg
    CpuState.do_exit Opcode.changes_pc Interpreter.handler
run-exit_ram = refl
