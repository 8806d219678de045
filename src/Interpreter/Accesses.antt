-- ===== src/Interpreter/Accesses.antt =====
-- The handlers of src/interpreter/interp.cc that go to memory.
use jit_research.Base.{◌%◌, Bool, true, false, Outcome, ok, ◌>>=◌, if◌then◌else◌}
use jit_research.Isa.Word.{plus, sign_extend}
use jit_research.Isa.Decode.{Instruction}
use jit_research.Memory.{Width, byte, half, word, size_of_bits, width_mod, MemoryOps, read, write}
use jit_research.CpuState.{CpuState, get_reg, set_reg}

module _ {M : Type 0} (mem : MemoryOps M) where
  -- `loadHelper<T, Signed>`
  unfoldable pub load_helper : Width → Bool → Instruction → CpuState M → Outcome (CpuState M)
  load_helper width is_signed n s = do
    loaded ← read mem width (plus (get_reg n.rs1 s) n.imm) s.memory
    ok (
        set_reg n.rd (if is_signed then sign_extend 32 32 (size_of_bits width) loaded else loaded)
          s)

  -- `storeHelper<T>`: the register is cut down to a `T`.
  unfoldable pub store_helper : Width → Instruction → CpuState M → Outcome (CpuState M)
  store_helper width n s = do
    m ← write mem width (plus (get_reg n.rs1 s) n.imm) (get_reg n.rs2 s % width_mod width) s.memory
    ok (record s { memory = m })

  unfoldable pub do_lb : Instruction → CpuState M → Outcome (CpuState M)
  unfolding load_helper
  do_lb n s = load_helper byte true n s

  unfoldable pub do_lbu : Instruction → CpuState M → Outcome (CpuState M)
  unfolding load_helper
  do_lbu n s = load_helper byte false n s

  unfoldable pub do_lh : Instruction → CpuState M → Outcome (CpuState M)
  unfolding load_helper
  do_lh n s = load_helper half true n s

  unfoldable pub do_lhu : Instruction → CpuState M → Outcome (CpuState M)
  unfolding load_helper
  do_lhu n s = load_helper half false n s

  unfoldable pub do_lw : Instruction → CpuState M → Outcome (CpuState M)
  unfolding load_helper
  do_lw n s = load_helper word false n s

  unfoldable pub do_sb : Instruction → CpuState M → Outcome (CpuState M)
  unfolding store_helper
  do_sb n s = store_helper byte n s

  unfoldable pub do_sh : Instruction → CpuState M → Outcome (CpuState M)
  unfolding store_helper
  do_sh n s = store_helper half n s

  unfoldable pub do_sw : Instruction → CpuState M → Outcome (CpuState M)
  unfolding store_helper
  do_sw n s = store_helper word n s
