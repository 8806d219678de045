-- ===== src/CpuState.antt =====
-- `struct CPUState` of src/cpu_state/include/prot/cpu_state.hh and src/cpu_state/cpu_state.cc. The
-- memory to which the state points is a field, since nothing else reaches it while a program runs.
pub mod Valid
use jit_research.Base.{
  ℕ, ◌+◌, List, get_or, set, replicate, Bool, true, false, Outcome, ok, fail, Failure, ◌>>=◌, ◌==◌,
  leb, if◌then◌else◌,
}

-- `kNumRegs`
abbrev pub num_regs : ℕ
num_regs = 32

pub record CpuState (M : Type 0) : Type 0 where
  pub regs : List ℕ
  pub pc : ℕ
  pub finished : Bool
  pub memory : M
  pub icount : ℕ
  pub exit_code : ℕ

module _ {M : Type 0} where
  -- `CPUState(mem)`
  unfoldable pub new : M → CpuState M
  new m = record {
    regs = replicate num_regs 0;
    pc = 0;
    finished = false;
    memory = m;
    icount = 0;
    exit_code = 0;
  }

  unfoldable pub set_pc : ℕ → CpuState M → CpuState M
  set_pc new_pc s = record s { pc = new_pc }

  -- `regs[id]`; the callers index by operands below 32, outside which C++ leaves it undefined.
  unfoldable pub get_reg : ℕ → CpuState M → ℕ
  get_reg id s = get_or s.regs id 0

  unfoldable pub set_reg : ℕ → ℕ → CpuState M → CpuState M
  set_reg id val s = if id == 0 then s else record s { regs = set s.regs id val }

  unfoldable pub get_sys_call_num : CpuState M → ℕ
  unfolding get_reg
  get_sys_call_num s = get_reg 17 s

  unfoldable pub get_sys_call_arg : ℕ → CpuState M → Outcome ℕ
  unfolding get_reg
  get_sys_call_arg num s =
      if leb 7 num then fail (Failure.bad_syscall_arg num) else ok (get_reg (10 + num) s)

  unfoldable pub do_exit : ℕ → CpuState M → CpuState M
  do_exit code s = record s { finished = true; exit_code = code }

  -- `emulateSysCall`: 93 is the only number that `NumSysCall` has.
  unfoldable pub emulate_sys_call : CpuState M → Outcome (CpuState M)
  unfolding get_sys_call_num get_sys_call_arg do_exit
  emulate_sys_call s =
      if get_sys_call_num s == 93
      then (do code ← get_sys_call_arg 0 s; ok (do_exit code s))
      else fail (Failure.unknown_syscall (get_sys_call_num s))
