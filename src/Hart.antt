-- ===== src/Hart.antt =====
-- `class Hart` of src/hart/hart.cc: it owns the memory and the CPU state that points to it, which the
-- model keeps in one value, and runs an engine on them (`run` of the engine's module).
pub mod Boot
use jit_research.Base.{ℕ, Outcome, ok, ◌>>=◌}
use jit_research.Memory.{MemoryOps}
use jit_research.CpuState.{CpuState, new, set_reg, set_pc}
use jit_research.Loader.{Constants, Elf, load_memory, get_entry_point}

module _ {M : Type 0} (mem : MemoryOps M) where
  -- `Hart(mem, engine)`
  unfoldable pub make_hart : M → CpuState M
  unfolding new
  make_hart m = new m

  -- `setSP`
  unfoldable pub set_sp : ℕ → CpuState M → CpuState M
  set_sp addr s = set_reg 2 addr s

  -- `load`
  unfoldable pub load : Constants → Elf → CpuState M → Outcome (CpuState M)
  load k elf s = do
    m ← load_memory mem k elf s.memory
    ok (set_pc (get_entry_point elf) (record s { memory = m }))

-- `getExitCode` and `getIcount`
abbrev pub get_exit_code : {M : Type 0} → CpuState M → ℕ
get_exit_code s = s.exit_code

abbrev pub get_icount : {M : Type 0} → CpuState M → ℕ
get_icount s = s.icount
